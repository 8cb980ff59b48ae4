-- ===== src/Sync/Engine/Events.antt =====
-- `_skip_remaining`, `_renew_leases` and `_apply_event`.
pub mod Writes
use worshiptool_churchtools.Prelude.{
  ℕ, String, Bool, true, false, not, Option, none, some, List, [], ◌∷◌, if◌then◌else◌, ◌&&◌, ◌==◌,
  is_nil, select, opt_eq, Dict, get, has_key,
}
use worshiptool_churchtools.Sync.Errors.{Result, ok, raise, Raised, concurrent_modification_error}
use worshiptool_churchtools.Sync.Models.{
  ActionStatus, Agenda, EventPlan, PlannedAction, mutates_agenda, ActionResult, empty_result,
  ActionError, ActionExecution,
}
use worshiptool_churchtools.Sync.Platform.{Platform}
use worshiptool_churchtools.Sync.Planner.Events.{agenda_fingerprint}
use worshiptool_churchtools.Sync.Engine.Calls.{
  Call, Ports, Action, World, pure, fail, ◌>>=◌, ◌>>◌, perform, lift, resources_of,
}
use worshiptool_churchtools.Sync.Engine.Status.{or_option}
use worshiptool_churchtools.Sync.Engine.Actions.{text_of}
use worshiptool_churchtools.Sync.Engine.Execute.{execution, finished, execute_or_resume}
use worshiptool_churchtools.Sync.Engine.Reconcile.{reconcile_agenda_effect}

-- How the loop goes on: with the fingerprint that the agenda has to have, or not at all.
pub data Next : Type 0 where
  stop : Next
  proceed : Option String → Next

abbrev pub missing_of : PlannedAction → Dict String → List String
missing_of action resources =
    select (λ dependency. not (has_key dependency resources)) action.dependencies

module _ (p : Platform) (ports : Ports) where
  -- `_skip_remaining`
  unfoldable pub skip_remaining : List PlannedAction → ActionError → Action (Unit {0})
  skip_remaining [] reason = pure tt
  skip_remaining (action ∷ actions) reason =
      finished p ports (execution action ActionStatus.skipped empty_result (some reason)) >>= λ _.
      skip_remaining actions reason

  -- `_renew_leases`
  unfoldable pub renew_leases : String → Action Bool
  renew_leases resource = do
    run_ok ← perform ports.flag Call.renew_run_lease
    if run_ok then perform ports.flag (Call.renew_event_lease resource) else pure false

  -- `heartbeat_lost.is_set() or not await self._renew_leases(…)`, negated
  unfoldable pub still_leased : String → Action Bool
  still_leased resource w =
      if ports.lease_lost w.calls then (ok false, w) else renew_leases resource w

  unfoldable pub stop_with : ActionExecution → List PlannedAction → ActionError → Action Next
  stop_with e actions reason = do
    _ ← finished p ports e
    _ ← skip_remaining actions reason
    pure Next.stop

  -- After an execution: on only where it is verified.
  unfoldable pub conclude_by :
      List PlannedAction → ActionError → Option String → ActionResult → ActionStatus → Action Next
  conclude_by actions reason fallback result ActionStatus.verified =
      pure (Next.proceed (some (text_of (or_option result.agenda_fingerprint fallback))))
  conclude_by actions reason fallback result _ =
      skip_remaining actions reason >>= λ _. pure Next.stop

  unfoldable pub conclude :
      List PlannedAction → ActionError → Option String → ActionExecution → Action Next
  unfolding conclude_by
  conclude actions reason fallback e = conclude_by actions reason fallback e.result e.status

  unfoldable pub run_step :
      PlannedAction
      → List PlannedAction
      → ActionError
      → Option String
      → Option ActionExecution
      → Action Next
  run_step action actions reason expected previous = do
    e ← execute_or_resume p ports action previous
    conclude actions reason expected e

  module _ (event_id : String) (prior : Dict ActionExecution) where
    -- The agenda is not as expected: an effect of ours, or a change of someone else.
    unfoldable pub reconcile_step :
        PlannedAction → List PlannedAction → Agenda → Option ActionResult → Action Next
    reconcile_step action actions actual none =
        stop_with
          (execution action ActionStatus.failed empty_result
            (some (ActionError.provider_error concurrent_modification_error)))
          actions ActionError.agenda_changed
    reconcile_step action actions actual (some result) = do
      let applied = execution action ActionStatus.applied result none
      _ ← finished p ports applied
      run_step action actions ActionError.event_reconciliation_failed
          (some (agenda_fingerprint p actual)) (some applied)

    unfoldable pub differs_step : PlannedAction → List PlannedAction → Agenda → Action Next
    differs_step action actions actual = do
      resources ← resources_of
      reconciled ← lift (reconcile_agenda_effect p action actual resources)
      reconcile_step action actions actual reconciled

    -- An action that changes the agenda, not applied before.
    unfoldable pub guarded_step :
        PlannedAction → List PlannedAction → Option String → Option ActionExecution → Action Next
    guarded_step action actions expected previous = do
      actual ← perform ports.agenda (Call.get_agenda event_id)
      (if opt_eq (some (agenda_fingerprint p actual)) expected
          then run_step action actions ActionError.event_action_failed expected previous
          else differs_step action actions actual)

    abbrev status_of : Option ActionExecution → Option ActionStatus
    status_of none = none
    status_of (some previous) = some previous.status

    -- By what is known of the action.
    unfoldable pub known_step :
        PlannedAction
        → List PlannedAction
        → Option String
        → Option ActionExecution
        → Option ActionStatus
        → Action Next
    known_step action actions expected previous (some ActionStatus.verified) =
        run_step action actions ActionError.event_reverification_failed expected previous
    known_step action actions expected previous (some ActionStatus.applied) =
        run_step action actions ActionError.event_action_failed expected previous
    known_step action actions expected previous _ =
        if mutates_agenda action
        then guarded_step action actions expected previous
        else run_step action actions ActionError.event_action_failed expected previous

    unfoldable pub dependent_step :
        PlannedAction → List PlannedAction → Option String → List String → Action Next
    dependent_step action actions expected missing =
        if is_nil missing
        then known_step action actions expected (get action.id prior)
            (status_of (get action.id prior))
        else stop_with
            (execution action ActionStatus.skipped empty_result
              (some ActionError.dependency_failed))
            actions ActionError.event_dependency_failed

    unfoldable pub leased_step :
        PlannedAction → List PlannedAction → Option String → Bool → Action Next
    leased_step action actions expected true = do
      resources ← resources_of
      dependent_step action actions expected (missing_of action resources)
    leased_step action actions expected false =
        stop_with
          (execution action ActionStatus.failed empty_result ((some ActionError.lease_lost)))
          actions ActionError.lease_lost

    -- The body of the loop of `_apply_event`.
    unfoldable pub step : PlannedAction → List PlannedAction → Option String → Action Next
    step action actions expected = do
      canceled ← perform ports.flag Call.cancel_requested
      (if canceled
          then pure Next.stop
          else (still_leased event_id >>= leased_step action actions expected))

    unfoldable pub continue : (Option String → Action Bool) → Next → Action Bool
    continue k Next.stop = pure false
    continue k (Next.proceed expected) = k expected

    unfoldable pub apply_actions : List PlannedAction → Option String → Action Bool
    apply_actions [] expected = pure true
    apply_actions (action ∷ actions) expected =
        step action actions expected >>= continue (apply_actions actions)

  abbrev pub with_target : Option String → (String → Action Bool) → Action Bool
  with_target none k = fail Raised.other
  with_target (some event_id) k = k event_id

  -- `_apply_event`
  unfoldable pub apply_event : EventPlan → Dict ActionExecution → Action Bool
  unfolding apply_actions
  apply_event event prior =
      with_target event.target_event_id
        (λ event_id. apply_actions event_id prior event.actions event.initial_agenda_fingerprint)
