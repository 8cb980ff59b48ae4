-- ===== src/Sync/Engine/Plan.antt =====
-- `_apply_plan`.
pub mod Success
pub mod Writes
use worshiptool_churchtools.Prelude.{
  ℕ, ◌+◌, String, Bool, true, false, Option, none, some, List, [], ◌∷◌, if◌then◌else◌, ◌&&◌, is_nil,
  is_some, Dict, get,
}
use worshiptool_churchtools.Sync.Errors.{Raised}
use worshiptool_churchtools.Sync.Models.{
  ActionStatus, EventPlan, EventPlanStatus, PlannedAction, RunStatus, SyncPlan, empty_result,
  ActionError, ActionExecution,
}
use worshiptool_churchtools.Sync.Platform.{Platform}
use worshiptool_churchtools.Sync.Engine.Calls.{
  Call, Ports, Action, pure, fail, ◌>>=◌, ◌>>◌, perform, finally, resources_of, set_resources,
}
use worshiptool_churchtools.Sync.Engine.Status.{RunProgress, final_status}
use worshiptool_churchtools.Sync.Engine.Execute.{execution, finished, execute_or_resume}
use worshiptool_churchtools.Sync.Engine.Events.{
  missing_of, skip_remaining, still_leased, apply_event,
}

abbrev pub catalog_lease : String
catalog_lease = "__song_catalog__"

-- `progress.verified_actions += 1` where the execution is verified
abbrev pub verified_count : ActionStatus → ℕ
verified_count ActionStatus.verified = 1
verified_count _ = 0

module _ (p : Platform) (ports : Ports) (prior : Dict ActionExecution) where
  -- The verified actions that a preparation adds.
  unfoldable pub prepare_action : PlannedAction → List String → Action ℕ
  prepare_action action missing =
      if is_nil missing
      then (execute_or_resume p ports action (get action.id prior) >>= λ (e : ActionExecution).
          pure (verified_count e.status))
      else finished p ports
          (execution action ActionStatus.skipped empty_result (some ActionError.dependency_failed))
        >>= λ _. pure 0

  unfoldable pub prepare_leased :
      PlannedAction → List PlannedAction → (ℕ → Action (Option ℕ)) → ℕ → Bool → Action (Option ℕ)
  prepare_leased action actions k verified true = do
    resources ← resources_of
    more ← prepare_action action (missing_of action resources)
    k (verified + more)
  prepare_leased action actions k verified false = do
    _ ← skip_remaining p ports (action ∷ actions) ActionError.lease_lost
    pure (some verified)

  -- The loop over the preparation actions; `none` is a run that is canceled.
  unfoldable pub prepare_actions : List PlannedAction → ℕ → Action (Option ℕ)
  prepare_actions [] verified = pure (some verified)
  prepare_actions (action ∷ actions) verified =
      perform ports.flag Call.cancel_requested >>= λ canceled.
      if canceled
      then pure none
      else (still_leased p ports catalog_lease
          >>= prepare_leased action actions (prepare_actions actions) verified)

  unfoldable pub prepare_locked : List PlannedAction → Bool → Action (Option ℕ)
  prepare_locked actions true =
      finally (prepare_actions actions 0) (perform ports.done (Call.release catalog_lease))
  prepare_locked actions false =
      skip_remaining p ports actions ActionError.catalog_locked >>= λ _. pure (some 0)

  unfoldable pub prepare : List PlannedAction → Action (Option ℕ)
  unfolding prepare_locked
  prepare [] = pure (some 0)
  prepare (action ∷ actions) =
      perform ports.flag (Call.acquire catalog_lease) >>= prepare_locked (action ∷ actions)

  abbrev pub with_success : RunProgress → RunProgress
  with_success progress = record progress { event_successes = progress.event_successes + 1 }

  abbrev pub with_failure : RunProgress → RunProgress
  with_failure progress = record progress { event_failures = progress.event_failures + 1 }

  -- `if success and …: record_event_synced(…)`
  unfoldable pub checkpoint : EventPlan → Bool → Action Bool
  checkpoint event success =
      if success && is_some event.source_fingerprint && is_some event.config_fingerprint
      then (perform ports.done (Call.record_event_synced event) >>= λ _. pure success)
      else pure success

  unfoldable pub apply_locked :
      EventPlan
      → String
      → (RunProgress → Action (Option RunProgress))
      → RunProgress
      → Bool
      → Action (Option RunProgress)
  apply_locked event id k progress true = do
    success ←
        finally (apply_event p ports event prior >>= checkpoint event)
          (perform ports.done (Call.release id))
    canceled ← perform ports.flag Call.cancel_requested
    (if canceled
        then pure none
        else if success
        then k (with_success progress)
        else k (with_failure progress))
  apply_locked event id k progress false = do
    _ ← skip_remaining p ports event.actions ActionError.event_locked
    k (with_failure progress)

  unfoldable pub apply_target :
      EventPlan
      → Option String
      → (RunProgress → Action (Option RunProgress))
      → RunProgress
      → Action (Option RunProgress)
  apply_target event none k progress = fail Raised.other
  apply_target event (some id) k progress =
      perform ports.flag (Call.acquire id) >>= apply_locked event id k progress

  -- The body of the loop over the events, by the status of the event.
  unfoldable pub apply_by :
      EventPlan
      → (RunProgress → Action (Option RunProgress))
      → RunProgress
      → EventPlanStatus
      → Action (Option RunProgress)
  apply_by event k progress EventPlanStatus.skipped = k progress
  apply_by event k progress EventPlanStatus.ready =
      perform ports.flag Call.cancel_requested >>= λ canceled.
      if canceled then pure none else apply_target event event.target_event_id k progress
  apply_by event k progress _ = k (with_failure progress)

  unfoldable pub apply_events : List EventPlan → RunProgress → Action (Option RunProgress)
  apply_events [] progress = pure (some progress)
  apply_events (event ∷ events) progress =
      apply_by event (apply_events events) progress event.status

  abbrev pub status_of_run : SyncPlan → Option RunProgress → RunStatus
  status_of_run plan none = RunStatus.canceled
  status_of_run plan (some progress) = final_status plan progress

  unfoldable pub apply_prepared : SyncPlan → Option ℕ → Action RunStatus
  apply_prepared plan none = pure RunStatus.canceled
  apply_prepared plan (some verified) = do
    progress ←
        apply_events plan.events
          (record { verified_actions = verified; event_successes = 0; event_failures = 0 })
    pure (status_of_run plan progress)

  -- The run, with the rows of the earlier workers.
  unfoldable pub apply_with : SyncPlan → Action RunStatus
  unfolding prepare apply_prepared
  apply_with plan = do
    _ ← set_resources []
    verified ← prepare plan.preparation_actions
    apply_prepared plan verified

-- `_apply_plan`
unfoldable pub apply_plan : Platform → Ports → SyncPlan → Action RunStatus
unfolding apply_with
apply_plan p ports plan =
    perform ports.executions Call.prior_executions >>= λ prior. apply_with p ports prior plan
