-- ===== src/RunStore/Step.antt =====
-- The changes of the store, as a relation: the transactions of the run's workers at any time, the
-- scheduler's, the API's and the retention's, and those about other runs and the profile.
use worshiptool_churchtools.Prelude.{ℕ, String, ◌≡◌, Option, none, some, List, Dict, get}
use worshiptool_churchtools.Sync.Models.{
  RunStatus, PlannedAction, ActionExecution, SyncPlan, Ownership, EventPlan, EventSyncCheckpoint,
}
use worshiptool_churchtools.Sync.Platform.{Platform}
use worshiptool_churchtools.RunStore.State.{
  RunError, ActionRow, ProfileRow, RemoteBinding, Store, worker_session,
}
use worshiptool_churchtools.RunStore.Lease.{
  claim, renew_lease, finish, redispatch, mark_dispatched, cancel_run,
}
use worshiptool_churchtools.RunStore.Plan.{persist_plan, action_started, action_finished}
use worshiptool_churchtools.RunStore.Bindings.{
  bind_ownership, unbind_ownership, record_event_synced,
}
use worshiptool_churchtools.RunStore.Api.{archive_workspace, unarchive_workspace, cleanup_run}

abbrev pub run_id_of : Store → Option String
run_id_of s = elim s.run [ none ↦ none | some run ↦ some run.id ]

-- The two tables have the same rows of the run.
pub record SameActions (run_id : String) (d d' : Dict ActionRow) : Type 0 where
  pub kept :
      (id : String) (row : ActionRow)
      → row.run_id ≡ run_id
      → get id d ≡ some row
      → get id d' ≡ some row
  pub added :
      (id : String) (row : ActionRow)
      → row.run_id ≡ run_id
      → get id d' ≡ some row
      → get id d ≡ some row

-- The calls that a worker makes under its owner token.
pub data WorkerCall : Type 0 where
  claims renews : ℕ → WorkerCall
  finishes : RunStatus → Option RunError → WorkerCall
  persists : SyncPlan → WorkerCall
  starts : PlannedAction → WorkerCall
  records : ActionExecution → WorkerCall
  binds : Ownership → WorkerCall
  unbinds : String → String → String → WorkerCall
  checkpoints : EventPlan → WorkerCall

module _ (p : Platform) where
  -- The store after a call.
  unfoldable pub after_call : ℕ → String → WorkerCall → Store → Store
  after_call now token (claims lease_seconds) s = (claim p now token lease_seconds s).1
  after_call now token (renews lease_seconds) s = (renew_lease now token lease_seconds s).1
  after_call now token (finishes status error) s = (finish now status error (some token) s).1
  after_call now token (persists plan) s = (worker_session (persist_plan p now plan token) s).1
  after_call now token (starts action) s = (worker_session (action_started now action token) s).1
  after_call now token (records execution) s =
      (worker_session (action_finished now execution token) s).1
  after_call now token (binds ownership) s =
      (worker_session (bind_ownership now ownership token) s).1
  after_call now token (unbinds profile event item) s =
      (worker_session (unbind_ownership now profile event item token) s).1
  after_call now token (checkpoints event) s =
      (worker_session (record_event_synced now event token) s).1

  pub data Step (s : Store) : Store → Type 0 where
    works : (now : ℕ) (token : String) (call : WorkerCall) → Step s (after_call now token call s)
    redispatches : (now redelivery : ℕ) → Step s (redispatch now redelivery s).1
    dispatches : (at : ℕ) → Step s (mark_dispatched at s).1
    cancels : (now : ℕ) → Step s (cancel_run now s).1
    archives : (now : ℕ) → Step s (archive_workspace now s).1
    unarchives : Step s (unarchive_workspace s)
    cleans : (cutoff : ℕ) → Step s (cleanup_run cutoff s)
    -- any change or removal of the profile's row
    edits : (profile : Option ProfileRow) → Step s (record s { profile = profile })
    -- whatever other runs do to their actions, and to bindings and checkpoints
    runs_elsewhere :
        (actions : Dict ActionRow) (bindings : List RemoteBinding)
        (checkpoints : List EventSyncCheckpoint)
        → ((run_id : String) → run_id_of s ≡ some run_id → SameActions run_id s.actions actions)
        → Step s (record s { actions = actions; bindings = bindings; checkpoints = checkpoints })

  pub data Reach (s : Store) : Store → Type 0 where
    here : Reach s s
    next : {t u : Store} → Reach s t → Step t u → Reach s u
