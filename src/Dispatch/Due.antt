-- ===== src/Dispatch/Due.antt =====
-- `_create_due_runs`. The ids of new runs and the cron iterator are the outside's.
use worshiptool_churchtools.Prelude.{
  ℕ, ◌+◌, ◌-◌, String, Bool, true, false, not, Option, none, some, List, [], ◌∷◌, ◌++◌, map,
  if◌then◌else◌, ◌&&◌, ◌||◌, ◌==◌, any, nat_eq, ltb, leb, str_leb, min, max, length, select, sort,
  take, modify_if,
}
use worshiptool_churchtools.Sync.Models.{RunStatus}
use worshiptool_churchtools.Scheduling.{Cron, Scheduled, next_schedule_after}
use worshiptool_churchtools.RunStore.State.{RunError, is_queued, is_running, is_over, seconds}
use worshiptool_churchtools.Dispatch.State.{
  Store, SyncProfile, SyncRun, SyncTrigger, is_active_of, in_open_workspace,
}

abbrev pub is_stale : ℕ → Option ℕ → Bool
is_stale retry_before none = true
is_stale retry_before (some at) = leb at retry_before

-- The condition of `recoverable_query`.
abbrev pub is_recoverable : ℕ → ℕ → Store → SyncRun → Bool
is_recoverable now retry_before s run =
    in_open_workspace s run.workspace_id
    && ((is_queued run.status && is_stale retry_before run.dispatch_attempted_at)
        || (is_running run.status && is_over now run.lease_expires_at))

-- `ORDER BY created_at, id`
abbrev pub run_leb : SyncRun → SyncRun → Bool
run_leb a b =
    if ltb a.created_at b.created_at
    then true
    else if nat_eq a.created_at b.created_at
    then str_leb a.id b.id
    else false

abbrev pub run_id_of : SyncRun → String
run_id_of run = run.id

unfoldable pub recovered_ids : ℕ → ℕ → ℕ → Store → List String
recovered_ids now retry_before limit s =
    map run_id_of (take limit (sort run_leb (select (is_recoverable now retry_before s) s.runs)))

-- The loop body over the recoverable runs.
abbrev pub requeued_run : ℕ → SyncRun → SyncRun
requeued_run now run =
    if is_running run.status
    then (record run {
      status = RunStatus.queued;
      lease_owner = none;
      lease_expires_at = none;
      dispatch_attempted_at = some now;
    })
    else (record run { dispatch_attempted_at = some now })

abbrev pub is_due : ℕ → Option ℕ → Bool
is_due now none = true
is_due now (some at) = leb at now

-- The condition of the query of the profiles.
abbrev pub is_due_profile : ℕ → Store → SyncProfile → Bool
is_due_profile now s profile =
    in_open_workspace s profile.workspace_id
    && profile.enabled
    && is_due now profile.next_scheduled_at
    && not (any s.runs (is_active_of profile.id))

abbrev pub nulls_first : Option ℕ → Option ℕ → String → String → Bool
nulls_first none none id id' = str_leb id id'
nulls_first none (some b) id id' = true
nulls_first (some a) none id id' = false
nulls_first (some a) (some b) id id' =
    if ltb a b then true else if nat_eq a b then str_leb id id' else false

-- `ORDER BY next_scheduled_at NULLS FIRST, id`
abbrev pub profile_leb : SyncProfile → SyncProfile → Bool
profile_leb a b = nulls_first a.next_scheduled_at b.next_scheduled_at a.id b.id

unfoldable pub due_profiles : ℕ → ℕ → Store → List SyncProfile
due_profiles now limit s = take limit (sort profile_leb (select (is_due_profile now s) s.profiles))

-- `timedelta(days=1)`
abbrev pub day : ℕ
day = seconds 86400

abbrev pub has_profile_id : String → SyncProfile → Bool
has_profile_id id profile = profile.id == id

module _ {I : Type 0} (cron : Cron I) (new_id : List SyncRun → String) (now : ℕ) where
  abbrev pub following : SyncProfile → Scheduled
  following profile =
      next_schedule_after cron profile.schedule_type profile.interval_minutes
        profile.cron_expression profile.target_timezone now

  abbrev pub scheduled_run : SyncProfile → List SyncRun → SyncRun
  scheduled_run profile runs = record {
    id = new_id runs;
    workspace_id = profile.workspace_id;
    profile_id = profile.id;
    config_revision = profile.revision;
    status = RunStatus.queued;
    trigger = SyncTrigger.scheduled;
    dry_run = false;
    created_at = now;
    finished_at = none;
    dispatch_attempted_at = some now;
    lease_owner = none;
    lease_expires_at = none;
    error = none;
  }

  abbrev pub invalid_run : SyncProfile → List SyncRun → SyncRun
  invalid_run profile runs = record (scheduled_run profile runs) {
    status = RunStatus.failed;
    finished_at = some now;
    dispatch_attempted_at = none;
    error = some RunError.invalid_schedule;
  }

  abbrev pub planned_profile : ℕ → SyncProfile → SyncProfile
  planned_profile next profile = record profile {
    last_scheduled_at = some now;
    next_scheduled_at = some next;
  }

  abbrev pub postponed_profile : SyncProfile → SyncProfile
  postponed_profile profile = record profile { next_scheduled_at = some (now + day) }

  -- The loop body over the due profiles.
  abbrev pub schedule_by : SyncProfile → Scheduled → Store → List String × Store
  schedule_by profile (Scheduled.at next) s = (
    new_id s.runs ∷ [],
    record s {
      runs = s.runs ++ scheduled_run profile s.runs ∷ [];
      profiles = modify_if (has_profile_id profile.id) (planned_profile next) s.profiles;
    },
  )
  schedule_by profile (Scheduled.value_error e) s = (
    [],
    record s {
      runs = s.runs ++ invalid_run profile s.runs ∷ [];
      profiles = modify_if (has_profile_id profile.id) postponed_profile s.profiles;
    },
  )

  unfoldable pub schedule_profiles : List SyncProfile → Store → List String × Store
  schedule_profiles [] s = ([], s)
  schedule_profiles (profile ∷ profiles) s =
      let (queued, t) = schedule_by profile (following profile) s in
      let (more, u) = schedule_profiles profiles t in (queued ++ more, u)

  abbrev pub is_among : List String → SyncRun → Bool
  is_among ids run = any ids (λ id. run.id == id)

  abbrev pub recover : List String → Store → Store
  recover ids s = record s { runs = modify_if (is_among ids) (requeued_run now) s.runs }

  -- `_create_due_runs`: the ids to send to the queue
  unfoldable pub create_due_runs : ℕ → ℕ → Store → List String × Store
  unfolding recovered_ids due_profiles schedule_profiles
  create_due_runs redelivery_seconds limit s =
      let batch_limit = max 1 (min limit 1000) in
      let ids = recovered_ids now (now - seconds redelivery_seconds) batch_limit s in
      let t = recover ids s in
      if leb batch_limit (length ids)
      then (ids, t)
      else (let (queued, u) = schedule_profiles (due_profiles now (batch_limit - length ids) t) t in
          (ids ++ queued, u))
