-- ===== src/Sync/Engine/Plan/Writes.antt =====
-- The writes of a run.
use worshiptool_churchtools.Prelude.{
  ℕ, ◌+◌, ◌≤◌, String, ◌≡◌, refl, Bool, true, false, Option, none, some, List, [], ◌∷◌, inl, inr,
  if◌then◌else◌, arith, Dict, get,
}
use worshiptool_churchtools.Sync.Errors.{ok, Result-cases}
use worshiptool_churchtools.Sync.Models.{
  EventPlan, EventPlanStatus, PlannedAction, SyncPlan, is_ready, ActionExecution,
}
use worshiptool_churchtools.Sync.Platform.{Platform}
use worshiptool_churchtools.Sync.Engine.Calls.{Call, Ports, Action, World, writes, perform, ◌>>=◌}
use worshiptool_churchtools.Sync.Engine.Trace.{Trace, Trace-read, Trace-trans}
use worshiptool_churchtools.Sync.Engine.Budget.{
  Budget, Budget-bound, Budget-pure, Budget-read, Budget-bind, Budget-more, Budget-if, Budget-fail,
  Budget-finally, Budget-resources, Budget-set, quiet, Quiet-bind,
}
use worshiptool_churchtools.Sync.Engine.Status.{RunProgress}
use worshiptool_churchtools.Sync.Engine.Events.Writes.{
  allowance, total_allowance, Budget-skip_remaining, Budget-still_leased, Budget-apply_event,
  Budget-execution,
}
use worshiptool_churchtools.Sync.Engine.Plan.{
  prepare_action, prepare_leased, prepare_actions, prepare_locked, prepare, checkpoint,
  apply_locked, apply_target, apply_by, apply_events, apply_prepared, apply_with, apply_plan,
}

-- The writes that the events of a plan may make.
unfoldable pub events_allowance : Dict ActionExecution → List EventPlan → ℕ
events_allowance prior [] = 0
events_allowance prior (event ∷ events) =
    (if is_ready event.status then total_allowance prior event.actions else 0)
    + events_allowance prior events

unfoldable pub plan_allowance : Dict ActionExecution → SyncPlan → ℕ
unfolding events_allowance
plan_allowance prior plan =
    total_allowance prior plan.preparation_actions + events_allowance prior plan.events

module _ (p : Platform) (ports : Ports) (prior : Dict ActionExecution) where
  Budget-prepare_action :
      (action : PlannedAction) (missing : List String)
      → Budget (allowance (get action.id prior)) (prepare_action p ports prior action missing)
  unfolding prepare_action
  Budget-prepare_action action missing =
      Budget-if _
        (Budget-more (omega arith) (
          Budget-bind (Budget-execution p ports action (get action.id prior)) (λ e. Budget-pure _)))
        (Budget-more (omega arith) (Quiet-bind (Budget-read _ _ refl) (λ u. Budget-pure _)))

  Budget-prepare_leased :
      {n : ℕ} {k : ℕ → Action (Option ℕ)} (action : PlannedAction) (actions : List PlannedAction)
      (verified : ℕ) (leased : Bool)
      → ((m : ℕ) → Budget n (k m))
      → Budget
          (allowance (get action.id prior) + n)
          (prepare_leased p ports prior action actions k verified leased)
  unfolding prepare_leased
  Budget-prepare_leased action actions verified true h =
      Quiet-bind Budget-resources
        (λ resources. Budget-bind (Budget-prepare_action action _) (λ more. h (verified + more)))
  Budget-prepare_leased action actions verified false h =
      Budget-more (omega arith)
        (Quiet-bind (Budget-skip_remaining p ports (action ∷ actions) _) (λ u. Budget-pure _))

  Budget-prepare_actions :
      (actions : List PlannedAction) (verified : ℕ)
      → Budget (total_allowance prior actions) (prepare_actions p ports prior actions verified)
  unfolding prepare_actions total_allowance
  Budget-prepare_actions [] verified = Budget-pure _
  Budget-prepare_actions (action ∷ actions) verified =
      Quiet-bind (Budget-read _ _ refl) (λ canceled.
        Budget-if canceled (Budget-more (omega arith) (Budget-pure none)) (
          Quiet-bind (Budget-still_leased p ports _) (λ leased.
            Budget-prepare_leased action actions verified leased (Budget-prepare_actions actions))))

  Budget-prepare_locked :
      (actions : List PlannedAction) (locked : Bool)
      → Budget (total_allowance prior actions) (prepare_locked p ports prior actions locked)
  unfolding prepare_locked
  Budget-prepare_locked actions true =
      Budget-finally (Budget-prepare_actions actions 0) (Budget-read _ _ refl)
  Budget-prepare_locked actions false =
      Budget-more (omega arith)
        (Quiet-bind (Budget-skip_remaining p ports actions _) (λ u. Budget-pure _))

  Budget-prepare :
      (actions : List PlannedAction)
      → Budget (total_allowance prior actions) (prepare p ports prior actions)
  unfolding prepare
  Budget-prepare [] = Budget-more (omega arith) (Budget-pure _)
  Budget-prepare (action ∷ actions) =
      Quiet-bind (Budget-read _ _ refl) (Budget-prepare_locked (action ∷ actions))

  Budget-checkpoint :
      (event : EventPlan) (success : Bool) → Budget 0 (checkpoint p ports prior event success)
  unfolding checkpoint
  Budget-checkpoint event success = search quiet

  Budget-apply_locked :
      {n : ℕ} {k : RunProgress → Action (Option RunProgress)} (event : EventPlan) (id : String)
      (progress : RunProgress) (locked : Bool)
      → ((r : RunProgress) → Budget n (k r))
      → Budget
          (total_allowance prior event.actions + n)
          (apply_locked p ports prior event id k progress locked)
  unfolding apply_locked
  Budget-apply_locked event id progress true h =
      Budget-bind
        (Budget-finally
          (Budget-more (omega arith)
            (Budget-bind (Budget-apply_event p ports event prior) (Budget-checkpoint event)))
          (Budget-read _ _ refl))
        (λ success. Quiet-bind (Budget-read _ _ refl) (λ canceled.
          Budget-if canceled (Budget-more (omega arith) (Budget-pure none))
            (Budget-if success (h _) (h _))))
  Budget-apply_locked event id progress false h =
      Budget-more (omega arith)
        (Quiet-bind (Budget-skip_remaining p ports event.actions _) (λ u. h _))

  Budget-apply_target :
      {n : ℕ} {k : RunProgress → Action (Option RunProgress)} (event : EventPlan)
      (target : Option String) (progress : RunProgress)
      → ((r : RunProgress) → Budget n (k r))
      → Budget
          (total_allowance prior event.actions + n)
          (apply_target p ports prior event target k progress)
  unfolding apply_target
  Budget-apply_target event none progress h = Budget-more (omega arith) (Budget-fail _)
  Budget-apply_target event (some id) progress h =
      Quiet-bind (Budget-read _ _ refl) (λ locked. Budget-apply_locked event id progress locked h)

  Budget-apply_by :
      {n : ℕ} {k : RunProgress → Action (Option RunProgress)} (event : EventPlan)
      (progress : RunProgress) (status : EventPlanStatus)
      → ((r : RunProgress) → Budget n (k r))
      → Budget
          ((if is_ready status then total_allowance prior event.actions else 0) + n)
          (apply_by p ports prior event k progress status)
  unfolding apply_by
  Budget-apply_by event progress EventPlanStatus.ready h =
      Quiet-bind (Budget-read _ _ refl) (λ canceled.
        Budget-if canceled (Budget-more (omega arith) (Budget-pure none))
          (Budget-apply_target event event.target_event_id progress h))
  Budget-apply_by event progress EventPlanStatus.ambiguous h = Budget-more (omega arith) (h _)
  Budget-apply_by event progress EventPlanStatus.failed h = Budget-more (omega arith) (h _)
  Budget-apply_by event progress EventPlanStatus.skipped h = Budget-more (omega arith) (h _)

  Budget-apply_events :
      (events : List EventPlan) (progress : RunProgress)
      → Budget (events_allowance prior events) (apply_events p ports prior events progress)
  unfolding apply_events events_allowance
  Budget-apply_events [] progress = Budget-pure _
  Budget-apply_events (event ∷ events) progress =
      Budget-apply_by event progress event.status (Budget-apply_events events)

  Budget-apply_prepared :
      (plan : SyncPlan) (verified : Option ℕ)
      → Budget (events_allowance prior plan.events) (apply_prepared p ports prior plan verified)
  unfolding apply_prepared
  Budget-apply_prepared plan none = Budget-more (omega arith) (Budget-pure _)
  Budget-apply_prepared plan (some verified) =
      Budget-more (omega arith)
        (Budget-bind (Budget-apply_events plan.events _) (λ progress. Budget-pure _))

  Budget-apply_with :
      (plan : SyncPlan) → Budget (plan_allowance prior plan) (apply_with p ports prior plan)
  unfolding apply_with plan_allowance
  Budget-apply_with plan =
      Quiet-bind (Budget-set _)
        (λ u. Budget-bind (Budget-prepare plan.preparation_actions) (Budget-apply_prepared plan))

  -- A run makes at most as many writes to the target as its plan has actions, among the
  -- preparations and the actions of ready events, for which the repository has no row that says
  -- that they were applied, verified, failed or skipped. This holds for all answers of the
  -- provider, the repository and the lease manager.
  pub apply_plan-writes :
      (plan : SyncPlan) (w : World)
      → ports.executions (Call.prior_executions ∷ w.calls) ≡ ok prior
      → writes (apply_plan p ports plan w).1 ≤ writes w + plan_allowance prior plan
  unfolding apply_plan ◌>>=◌ perform
  apply_plan-writes plan w h =
      let read_world : World = record w { calls = Call.prior_executions ∷ w.calls } in
      rw h (ground (arith, Budget-bound (Budget-apply_with plan) read_world))

-- Whatever the repository answers, a run only adds calls.
pub apply_plan-Trace :
    (p : Platform) (ports : Ports) (plan : SyncPlan) (w : World)
    → (n : ℕ) × Trace n w.calls (apply_plan p ports plan w).1.calls
unfolding apply_plan ◌>>=◌ perform
apply_plan-Trace p ports plan w =
    let read_calls : List Call = Call.prior_executions ∷ w.calls in
    let read_world : World = record w { calls = read_calls } in
    elim (Result-cases (ports.executions read_calls)) [
      | inl (prior, h) ↦ (
        0 + plan_allowance prior plan,
        rw h (
            Trace-trans (Trace-read Call.prior_executions w.calls refl)
              ((Budget-apply_with p ports prior plan).trace read_world)),
      )
      | inr (e, h) ↦ (0, rw h (Trace-read Call.prior_executions w.calls refl))
    ]
