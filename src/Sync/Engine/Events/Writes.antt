-- ===== src/Sync/Engine/Events/Writes.antt =====
-- The writes of one event.
use worshiptool_churchtools.Prelude.{
  ℕ, ◌+◌, ◌≤◌, String, ◌≡◌, refl, Bool, true, false, Option, none, some, List, [], ◌∷◌,
  if◌then◌else◌, arith, Bool-cases, inl, inr, Dict, get, opt_eq,
}
use worshiptool_churchtools.Sync.Errors.{ok}
use worshiptool_churchtools.Sync.Planner.Events.{agenda_fingerprint}
use worshiptool_churchtools.Sync.Models.{
  ActionStatus, Agenda, EventPlan, PlannedAction, mutates_agenda, ActionResult, ActionExecution,
  ActionError,
}
use worshiptool_churchtools.Sync.Platform.{Platform}
use worshiptool_churchtools.Sync.Engine.Calls.{
  Call, Ports, Action, World, writes, perform, pure, ◌>>=◌,
}
use worshiptool_churchtools.Sync.Engine.Budget.{
  Budget, Budget-bound, Budget-test, Budget-pure, Budget-read, Budget-bind, Budget-more, Budget-if,
  Budget-fail, Budget-resources, quiet, Quiet-bind,
}
use worshiptool_churchtools.Sync.Engine.Execute.{execute_or_resume}
use worshiptool_churchtools.Sync.Engine.Execute.Writes.{
  is_resumed, Budget-execute, Budget-execute_resumed,
}
use worshiptool_churchtools.Sync.Engine.Events.{
  Next, skip_remaining, renew_leases, still_leased, stop_with, conclude_by, conclude, run_step,
  reconcile_step, differs_step, guarded_step, known_step, dependent_step, leased_step, step,
  continue, apply_actions, with_target, apply_event,
}

-- How often an action may be written: once where no row says that it was started, and never after.
abbrev pub allowance : Option ActionExecution → ℕ
allowance previous = if is_resumed previous then 0 else 1

-- The writes that a list of actions may make.
unfoldable pub total_allowance : Dict ActionExecution → List PlannedAction → ℕ
total_allowance prior [] = 0
total_allowance prior (action ∷ actions) =
    allowance (get action.id prior) + total_allowance prior actions

module _ (p : Platform) (ports : Ports) where
  pub Budget-skip_remaining :
      (actions : List PlannedAction) (reason : ActionError)
      → Budget 0 (skip_remaining p ports actions reason)
  unfolding skip_remaining
  Budget-skip_remaining [] reason = Budget-pure tt
  Budget-skip_remaining (action ∷ actions) reason =
      Quiet-bind (Budget-read _ _ refl) (λ u. Budget-skip_remaining actions reason)

  pub Budget-renew_leases : (resource : String) → Budget 0 (renew_leases p ports resource)
  unfolding renew_leases
  Budget-renew_leases resource = search quiet

  pub Budget-still_leased : (resource : String) → Budget 0 (still_leased p ports resource)
  unfolding still_leased pure
  Budget-still_leased resource =
      Budget-test (λ w. ports.lease_lost w.calls) (Budget-pure false) (Budget-renew_leases resource)

  Budget-stop_with :
      (e : ActionExecution) (actions : List PlannedAction) (reason : ActionError)
      → Budget 0 (stop_with p ports e actions reason)
  unfolding stop_with
  Budget-stop_with e actions reason = search (quiet, Budget-skip_remaining)

  Budget-conclude_by :
      (actions : List PlannedAction) (reason : ActionError) (fallback : Option String)
      (result : ActionResult) (status : ActionStatus)
      → Budget 0 (conclude_by p ports actions reason fallback result status)
  unfolding conclude_by
  Budget-conclude_by actions reason fallback result ActionStatus.verified = Budget-pure _
  Budget-conclude_by actions reason fallback result ActionStatus.planned =
      search (quiet, Budget-skip_remaining)
  Budget-conclude_by actions reason fallback result ActionStatus.applied =
      search (quiet, Budget-skip_remaining)
  Budget-conclude_by actions reason fallback result ActionStatus.failed =
      search (quiet, Budget-skip_remaining)
  Budget-conclude_by actions reason fallback result ActionStatus.skipped =
      search (quiet, Budget-skip_remaining)

  Budget-conclude :
      (actions : List PlannedAction) (reason : ActionError) (fallback : Option String)
      (e : ActionExecution)
      → Budget 0 (conclude p ports actions reason fallback e)
  unfolding conclude
  Budget-conclude actions reason fallback e =
      Budget-conclude_by actions reason fallback e.result e.status

  pub Budget-execution :
      (action : PlannedAction) (previous : Option ActionExecution)
      → Budget (allowance previous) (execute_or_resume p ports action previous)
  Budget-execution action previous = elim (Bool-cases (is_resumed previous)) [
    | inl h ↦ rw h (Budget-execute_resumed p ports action previous h)
    | inr h ↦ rw h (Budget-execute p ports action previous)
  ]

  Budget-run_step :
      (action : PlannedAction) (actions : List PlannedAction) (reason : ActionError)
      (expected : Option String) (previous : Option ActionExecution)
      → Budget (allowance previous) (run_step p ports action actions reason expected previous)
  unfolding run_step
  Budget-run_step action actions reason expected previous =
      Budget-more (omega arith)
        (Budget-bind (Budget-execution action previous) (Budget-conclude actions reason expected))

  module _ (event_id : String) (prior : Dict ActionExecution) where
    Budget-reconcile_step :
        (action : PlannedAction) (actions : List PlannedAction) (actual : Agenda)
        (reconciled : Option ActionResult)
        → Budget 0 (reconcile_step p ports event_id prior action actions actual reconciled)
    unfolding reconcile_step
    Budget-reconcile_step action actions actual none = Budget-stop_with _ actions _
    Budget-reconcile_step action actions actual (some result) =
        Quiet-bind (search quiet) (λ u. Budget-run_step action actions _ _ _)

    Budget-differs_step :
        (action : PlannedAction) (actions : List PlannedAction) (actual : Agenda)
        → Budget 0 (differs_step p ports event_id prior action actions actual)
    unfolding differs_step
    Budget-differs_step action actions actual = search (quiet, Budget-reconcile_step)

    Budget-guarded_step :
        (action : PlannedAction) (actions : List PlannedAction) (expected : Option String)
        (previous : Option ActionExecution)
        → Budget
            (allowance previous)
            (guarded_step p ports event_id prior action actions expected previous)
    unfolding guarded_step
    Budget-guarded_step action actions expected previous =
        Quiet-bind (Budget-read _ _ refl) (λ actual.
          Budget-if _ (Budget-run_step action actions _ _ previous)
            (Budget-more (omega arith) (Budget-differs_step action actions actual)))

    Budget-unresolved :
        (action : PlannedAction) (actions : List PlannedAction) (expected : Option String)
        (previous : Option ActionExecution)
        → Budget (allowance previous) (
            if mutates_agenda action
            then guarded_step p ports event_id prior action actions expected previous
            else run_step p ports action actions ActionError.event_action_failed expected previous)
    Budget-unresolved action actions expected previous =
        Budget-if _ (Budget-guarded_step action actions expected previous)
          (Budget-run_step action actions _ expected previous)

    Budget-known_step :
        (action : PlannedAction) (actions : List PlannedAction) (expected : Option String)
        (previous : Option ActionExecution) (status : Option ActionStatus)
        → Budget
            (allowance previous)
            (known_step p ports event_id prior action actions expected previous status)
    unfolding known_step
    Budget-known_step action actions expected previous (some ActionStatus.verified) =
        Budget-run_step action actions _ expected previous
    Budget-known_step action actions expected previous (some ActionStatus.applied) =
        Budget-run_step action actions _ expected previous
    Budget-known_step action actions expected previous (some ActionStatus.planned) =
        Budget-unresolved action actions expected previous
    Budget-known_step action actions expected previous (some ActionStatus.failed) =
        Budget-unresolved action actions expected previous
    Budget-known_step action actions expected previous (some ActionStatus.skipped) =
        Budget-unresolved action actions expected previous
    Budget-known_step action actions expected previous none =
        Budget-unresolved action actions expected previous

    Budget-dependent_step :
        (action : PlannedAction) (actions : List PlannedAction) (expected : Option String)
        (missing : List String)
        → Budget
            (allowance (get action.id prior))
            (dependent_step p ports event_id prior action actions expected missing)
    unfolding dependent_step
    Budget-dependent_step action actions expected missing =
        Budget-if _ (Budget-known_step action actions expected _ _)
          (Budget-more (omega arith) (Budget-stop_with _ actions _))

    Budget-leased_step :
        (action : PlannedAction) (actions : List PlannedAction) (expected : Option String)
        (leased : Bool)
        → Budget
            (allowance (get action.id prior))
            (leased_step p ports event_id prior action actions expected leased)
    unfolding leased_step
    Budget-leased_step action actions expected true =
        Quiet-bind Budget-resources (λ resources. Budget-dependent_step action actions expected _)
    Budget-leased_step action actions expected false =
        Budget-more (omega arith) (Budget-stop_with _ actions _)

    Budget-step :
        (action : PlannedAction) (actions : List PlannedAction) (expected : Option String)
        → Budget
            (allowance (get action.id prior))
            (step p ports event_id prior action actions expected)
    unfolding step
    Budget-step action actions expected = Quiet-bind (Budget-read _ _ refl) (λ canceled.
        Budget-if canceled (Budget-more (omega arith) (Budget-pure Next.stop))
          (Quiet-bind (Budget-still_leased event_id) (Budget-leased_step action actions expected)))

    Budget-continue :
        (n : ℕ) (k : Option String → Action Bool) (step : Next)
        → ((expected : Option String) → Budget n (k expected))
        → Budget n (continue p ports event_id prior k step)
    unfolding continue
    Budget-continue n k Next.stop h = Budget-more (omega arith) (Budget-pure false)
    Budget-continue n k (Next.proceed expected) h = h expected

    Budget-apply_actions :
        (actions : List PlannedAction) (expected : Option String)
        → Budget
            (total_allowance prior actions)
            (apply_actions p ports event_id prior actions expected)
    unfolding apply_actions total_allowance
    Budget-apply_actions [] expected = Budget-pure true
    Budget-apply_actions (action ∷ actions) expected =
        Budget-bind (Budget-step action actions expected)
          (λ s. Budget-continue _ _ s (Budget-apply_actions actions))

    -- An agenda that someone else has changed is not overwritten: where the agenda read before an
    -- action does not have the expected fingerprint, the action writes nothing, whether the
    -- difference is an effect of an earlier attempt or not.
    pub guarded_step-writes_nothing :
        (action : PlannedAction) (actions : List PlannedAction) (expected : Option String)
        (previous : Option ActionExecution) (actual : Agenda) (w : World)
        → ports.agenda (Call.get_agenda event_id ∷ w.calls) ≡ ok actual
        → opt_eq (some (agenda_fingerprint p actual)) expected ≡ false
        → writes (guarded_step p ports event_id prior action actions expected previous w).1
          ≤ writes w
    unfolding guarded_step ◌>>=◌ perform
    guarded_step-writes_nothing action actions expected previous actual w read differs =
        let read_world : World = record w { calls = Call.get_agenda event_id ∷ w.calls } in
        rw (read, differs)
          (ground (arith, Budget-bound (Budget-differs_step action actions actual) read_world))

  Budget-with_target :
      (n : ℕ) (target : Option String) (k : String → Action Bool)
      → ((id : String) → Budget n (k id))
      → Budget n (with_target p ports target k)
  Budget-with_target n none k h = Budget-more (omega arith) (Budget-fail _)
  Budget-with_target n (some id) k h = h id

  pub Budget-apply_event :
      (event : EventPlan) (prior : Dict ActionExecution)
      → Budget (total_allowance prior event.actions) (apply_event p ports event prior)
  unfolding apply_event
  Budget-apply_event event prior =
      Budget-with_target _ event.target_event_id _
        (λ id. Budget-apply_actions id prior event.actions event.initial_agenda_fingerprint)

  -- The application of an event makes at most as many writes to the target as the event has
  -- actions without a row that says that they were applied, verified, failed or skipped, whatever
  -- the ports answer.
  pub apply_event-writes :
      (event : EventPlan) (prior : Dict ActionExecution) (w : World)
      → writes (apply_event p ports event prior w).1
        ≤ writes w + total_allowance prior event.actions
  apply_event-writes event prior w = Budget-bound (Budget-apply_event event prior) w
