-- ===== src/Lib.antt =====
-- worshiptool-churchtools-sync: the core that copies the songs of a worship plan (the source) into
-- the agendas of ChurchTools (the target).
--
-- A run is a row that a worker claims under a lease. The worker lists the events and songs of both
-- sides, matches them, makes a complete plan, stores it, and only then changes the target, action by
-- action: each action is recorded as started, applied at the provider, recorded as applied, read
-- back, and recorded as verified. A worker that dies leaves the rows of its actions behind, and the
-- next one resumes from them. An agenda that somebody else has changed since the plan was made is
-- left alone.
--
-- The files, and the code that they are about (paths under backend/app):
--   Prelude, Prelude/*: lists, options, tests and dictionaries over the native numbers.
--   Sync/Errors: sync/errors.py. A raised exception is a `SyncError` or any other one.
--   Sync/Models, Sync/Models/*: the records of sync/models.py.
--   Sync/Platform: what the code takes from packages, as a parameter: Unicode normalisation, the
--     time zone database, the regex engine and SHA-256.
--   Sync/Matching/*: sync/matching.py. Text has `normalize_text` and `normalize_ccli`, Table the
--     dictionaries of lists, Songs `SongIndex` and `match_song`, Events `match_events`.
--   Sync/Planner/*: sync/planner.py. Factory has `_ActionFactory` and `_SongResource`, Songs
--     `_plan_song_resources`, Placements and Agenda `_plan_placements`, Events `_plan_event` and
--     `plan`.
--   Sync/Engine/*: sync/engine.py. Calls has the calls of the ports (sync/ports.py) and the state of
--     a run in memory; Actions has `_apply_action` and `_verify_action`, Execute
--     `_execute_or_resume`, Reconcile `_reconcile_agenda_effect`, Events `_apply_event`, Plan
--     `_apply_plan`, Status the statuses and the resources.
--   RunStore/*: the transactions of `SqlRunRepository` in runtime.py, the redelivery and the dispatch
--     mark of `SqlDueRunRepository`, and the route `cancel_run` of routers/runs.py. Api has the
--     archiving of routers/workspaces.py and the retention of runs of outbox.py. Step has them all as
--     one relation on the store, with any change of the profile and whatever other runs do to their actions, to
--     bindings and to checkpoints; Lasts says what holds until the run is removed.
--   Sync/Engine/Run, Sync/Engine/Run/*: `SyncOrchestrator.execute`. Guard says which calls come after
--     a durable plan, Durable, Quiet and Outcome what a run keeps to. Sync/Engine/Trace and
--     Sync/Engine/Budget carry what a piece of the orchestrator adds to the calls.
--   Sync/Fingerprints: sync/fingerprints.py. Sync/Serialization/*: `to_primitive` of sync/models.py
--     and sync/serialization.py. Sync/Leases/*: sync/leases.py, over an interface of Redis.
--   Outbox/*: the worker and the requests of outbox.py and their rows. Step has all that changes the
--     rows as one relation on the store, with the retention of outbox.py and the rotation of
--     rotate_encryption.py.
--   Providers/Http/*: providers/http.py, one request with its retries. Bounds has the attempts and
--     delays, Writes what a write leaves open.
--   RateLimit/*: rate_limit.py. Memory has the counter, Enforce the checks of a policy.
--   RunResults/*: run_results.py. Scheduling: scheduling.py. EventFilters: event_filters.py.
--   Dispatch/*: how runs come to be, over the rows of all workspaces: `_create_due_runs` of runtime.py
--     (Due) and the route `start_run` (Start).
--   Tests/*: the properties at concrete inputs.
--
-- How the code is rendered: an instant is a number of microseconds. A function that raises returns a
-- `Result`. A mapping with fixed keys is a record of options, where a key that is read by `[…]` and
-- is absent raises. A dictionary is an association list in insertion order. The orchestrator is a
-- function of the answers of its ports: an answer may depend on all calls so far, so that the ports
-- stand for any provider, any repository and any moment of cancellation or of a lost lease. All
-- loops are over lists or over a number of rounds that the code itself states (the attempts of a
-- request, the eight instants of a schedule, the limit of a batch), so that there is no fuel.
--
-- Not modelled: the heartbeat tasks (what they report is a parameter) and the closing of provider
-- clients, the two HTTP adapters above `request_json`, the notifications that a run fans out, the
-- Redis limiter, the routes other than `cancel_run`, `start_run` and the archiving of a workspace,
-- the conversions of a profile's columns (a row has their result), and messages for people, except in
-- a stored plan. Of the exceptions of a package, only those that it documents are modelled: those of
-- the HTTP client are a timeout, a transport error and a decoding error, and those of a cron schedule
-- are caught together.
pub mod Prelude
pub mod Sync
pub mod RunStore
pub mod Dispatch
pub mod EventFilters
pub mod Outbox
pub mod Providers
pub mod RateLimit
pub mod RunResults
pub mod Scheduling
pub mod Tests
