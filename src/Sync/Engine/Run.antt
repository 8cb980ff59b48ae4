-- ===== src/Sync/Engine/Run.antt =====
-- `SyncOrchestrator.execute`. The heartbeat, which sets `lease_lost`, and the closing of the
-- providers, whose errors are only logged, change neither the repository nor the target and are
-- left out.
pub mod Guard
pub mod Quiet
pub mod Durable
pub mod Outcome
use worshiptool_churchtools.Prelude.{
  ℕ, ◌+◌, ◌*◌, String, Bool, true, false, not, Option, none, some, List, [], ◌∷◌, map, sort,
  str_leb, select, if◌then◌else◌, ◌&&◌, ◌||◌, ◌==◌, nat_eq, any, is_some, Dict, put,
}
use worshiptool_churchtools.Sync.Errors.{
  Result, ok, raise, Raised, SyncError, ErrorKind, concurrent_modification_error,
}
use worshiptool_churchtools.Sync.Models.{
  Agenda, EventSyncCheckpoint, Ownership, ProfileConfig, RunSpecification, RunStatus, SourceEvent,
  SourceSong, SyncMode, SyncPlan, TargetEvent, TargetSong, is_ready,
}
use worshiptool_churchtools.Sync.Platform.{Platform}
use worshiptool_churchtools.Sync.Fingerprints.{
  Digests, source_event_fingerprint, sync_config_fingerprint,
}
use worshiptool_churchtools.Sync.Matching.Events.{EventMatch, match_events}
use worshiptool_churchtools.Sync.Planner.Songs.{distinct}
use worshiptool_churchtools.Sync.Planner.Events.{PlanInput, same_key, fingerprint_at, plan}
use worshiptool_churchtools.Sync.Engine.Calls.{
  Call, Ports, Action, pure, fail, lift, handle, ◌>>=◌, perform,
}
use worshiptool_churchtools.Sync.Engine.Status.{dry_run_status}
use worshiptool_churchtools.Sync.Engine.Plan.{apply_plan}

-- The answers to the calls that `execute` makes itself; those of `_apply_plan` are in `Ports`.
pub record Intake : Type 0 where
  pub claimed : List Call → Result (Option RunSpecification)
  pub opened : List Call → Result (Unit {0})
  pub stored : List Call → Result (Option SyncPlan)
  pub instant : List Call → Result ℕ
  pub source_events : List Call → Result (List SourceEvent)
  pub target_events : List Call → Result (List TargetEvent)
  pub source_songs : List Call → Result (List SourceSong)
  pub target_songs : List Call → Result (List TargetSong)
  pub states : List Call → Result (List ((String × String) × EventSyncCheckpoint))
  pub owned : List Call → Result (List Ownership)

-- A source with its target: the matches that are ready.
abbrev pub Pair : Type 0
Pair = SourceEvent × TargetEvent

abbrev pub pair_of : EventMatch → Option TargetEvent → List Pair → List Pair
pair_of m none pairs = pairs
pair_of m (some target) pairs = if is_ready m.status then (m.source, target) ∷ pairs else pairs

unfoldable pub matched_pairs : List EventMatch → List Pair
matched_pairs [] = []
matched_pairs (m ∷ ms) = pair_of m m.target (matched_pairs ms)

abbrev pub key_of : Pair → String × String
key_of (source, target) = (source.id, target.id)

-- `d[key] = fingerprint`
unfoldable pub put_fingerprint :
    String × String → String → List ((String × String) × String) → List ((String × String) × String)
put_fingerprint key fingerprint [] = (key, fingerprint) ∷ []
put_fingerprint key fingerprint ((k, f) ∷ entries) =
    let rest = put_fingerprint key fingerprint entries in
    if same_key k key then (k, fingerprint) ∷ entries else (k, f) ∷ rest

-- `checkpoints.get(key)`
unfoldable pub checkpoint_at :
    String × String → List ((String × String) × EventSyncCheckpoint) → Option EventSyncCheckpoint
checkpoint_at key [] = none
checkpoint_at key ((k, checkpoint) ∷ entries) =
    let rest = checkpoint_at key entries in if same_key k key then some checkpoint else rest

-- The condition of the comprehension of `unchanged_event_keys`.
abbrev pub is_current : String → String → Option EventSyncCheckpoint → Bool
is_current fingerprint config none = false
is_current fingerprint config (some checkpoint) =
    checkpoint.source_fingerprint == fingerprint && checkpoint.config_fingerprint == config

unfoldable pub current_keys :
    String
    → List ((String × String) × EventSyncCheckpoint)
    → List ((String × String) × String)
    → List (String × String)
current_keys config states [] = []
current_keys config states ((key, fingerprint) ∷ entries) =
    let rest = current_keys config states entries in
    if is_current fingerprint config (checkpoint_at key states) then key ∷ rest else rest

-- `unchanged_event_keys`
unfoldable pub unchanged_keys :
    ProfileConfig
    → String
    → List ((String × String) × EventSyncCheckpoint)
    → List ((String × String) × String)
    → List (String × String)
unchanged_keys profile config states fingerprints = elim profile.sync_mode [
  | SyncMode.source_changes_only ↦ current_keys config states fingerprints
  | SyncMode.enforce_source ↦ []
]

-- The targets whose agendas are fetched.
unfoldable pub target_ids : List (String × String) → List Pair → List String
target_ids unchanged pairs = sort str_leb (
    distinct (
      map (λ (pair : Pair). pair.1.id)
        (select (λ (pair : Pair). not (any unchanged (same_key (key_of pair)))) pairs)))

abbrev pub is_not_found : Raised → Bool
is_not_found (Raised.sync e) = elim e.kind [ ErrorKind.not_found ↦ true | _ ↦ false ]
is_not_found Raised.other = false

-- `timedelta(days=1)`, in microseconds
abbrev pub day : ℕ
day = 86400000000

abbrev pub Agendas : Type 0
Agendas = Dict Agenda × Dict (List Ownership)

module _ (p : Platform) (digests : Digests) (ports : Ports) (intake : Intake) where
  -- One target of the loop over `target_ids`.
  unfoldable pub fetch_agenda : String → Action (Option Agenda)
  fetch_agenda id =
      handle (perform ports.agenda (Call.get_agenda id) >>= λ agenda. pure (some agenda))
        (λ (e : Raised). if is_not_found e then pure none else fail e)

  unfoldable pub keep_agenda : String → Agendas → Option Agenda → Action Agendas
  keep_agenda id found none = pure found
  keep_agenda id (agendas, ownerships) (some agenda) = do
    owned ← perform intake.owned (Call.ownerships id)
    pure (put id agenda agendas, put id owned ownerships)

  unfoldable pub fetch_agendas : List String → Agendas → Action Agendas
  unfolding fetch_agenda keep_agenda
  fetch_agendas [] found = pure found
  fetch_agendas (id ∷ ids) found = fetch_agenda id >>= keep_agenda id found >>= fetch_agendas ids

  unfoldable pub event_fingerprints :
      List SourceSong
      → List Pair
      → List ((String × String) × String)
      → List ((String × String) × String)
  event_fingerprints songs [] entries = entries
  event_fingerprints songs ((source, target) ∷ pairs) entries = event_fingerprints songs pairs (
      put_fingerprint (source.id, target.id) (source_event_fingerprint p digests source songs)
        entries)

  -- The plan of what the providers list.
  unfoldable pub draw_up : String → RunSpecification → Action SyncPlan
  draw_up run_id spec = do
    _ ← perform intake.opened Call.open_source
    start ← perform intake.instant Call.now
    source_events ←
        perform intake.source_events
          (Call.list_source_events start (start + day * spec.profile.lookahead_days))
    target_events ←
        perform intake.target_events
          (Call.list_target_events start (start + day * spec.profile.lookahead_days))
    source_songs ← perform intake.source_songs Call.list_source_songs
    target_songs ← perform intake.target_songs Call.list_target_songs
    let pairs = matched_pairs (match_events p spec.profile source_events target_events)
    let fingerprints = event_fingerprints source_songs pairs []
    let config =
        sync_config_fingerprint digests spec.profile spec.source_connection_id
          spec.target_connection_id
    states ← perform intake.states (
        Call.event_sync_states (map (λ (entry : (String × String) × String). entry.0) fingerprints))
    let unchanged = unchanged_keys spec.profile config states fingerprints
    found ← fetch_agendas (target_ids unchanged pairs) ([], [])
    lift (
        plan p (record {
          run_id = run_id;
          profile = spec.profile;
          created_at = start;
          source_events = source_events;
          target_events = target_events;
          source_songs = source_songs;
          target_songs = target_songs;
          agendas = found.0;
          ownerships = found.1;
          event_fingerprints = fingerprints;
          config_fingerprint = some config;
          unchanged_event_keys = unchanged;
        }))

  -- `persist_plan`, and the plan
  unfoldable pub persist : SyncPlan → Action SyncPlan
  persist plan = perform ports.done (Call.persist_plan plan) >>= λ _. pure plan

  abbrev pub differs_from : String → RunSpecification → SyncPlan → Bool
  differs_from run_id spec plan =
      not (plan.run_id == run_id)
      || not (plan.profile_id == spec.profile.id)
      || not (nat_eq plan.profile_revision spec.profile.revision)

  -- The plan that is durable, by the one that an earlier worker left.
  unfoldable pub durable_plan : String → RunSpecification → Option SyncPlan → Action SyncPlan
  unfolding draw_up persist
  durable_plan run_id spec none = draw_up run_id spec >>= persist
  durable_plan run_id spec (some plan) =
      if differs_from run_id spec plan
      then fail (Raised.sync concurrent_modification_error)
      else pure plan

  unfoldable pub carry_out : RunSpecification → SyncPlan → Action RunStatus
  carry_out spec plan = if spec.dry_run then pure (dry_run_status plan) else apply_plan p ports plan

  -- `finish`, and the status where the worker was still the owner
  unfoldable pub conclude_run : RunStatus → Option Raised → Action (Option RunStatus)
  conclude_run status error = perform ports.flag (Call.finish status error) >>= λ finished.
      pure (if finished then some status else none)

  -- The body of the `try`.
  unfoldable pub attempt_run : String → RunSpecification → Action (Option RunStatus)
  unfolding durable_plan carry_out conclude_run
  attempt_run run_id spec = do
    _ ← perform intake.opened Call.open_target
    plan ← perform intake.stored Call.load_plan >>= durable_plan run_id spec
    status ← carry_out spec plan
    conclude_run status none

  unfoldable pub execute_claimed : String → Option RunSpecification → Action (Option RunStatus)
  unfolding attempt_run conclude_run
  execute_claimed run_id none = pure none
  execute_claimed run_id (some spec) =
      handle (attempt_run run_id spec) (λ (e : Raised). conclude_run RunStatus.failed (some e))

  -- `execute`
  unfoldable pub execute : String → Action (Option RunStatus)
  unfolding execute_claimed
  execute run_id = perform intake.claimed Call.claim >>= execute_claimed run_id
