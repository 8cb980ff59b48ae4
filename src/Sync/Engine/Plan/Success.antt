-- ===== src/Sync/Engine/Plan/Success.antt =====
-- What the status of a run says of its plan.
use worshiptool_churchtools.Prelude.{
  ℕ, ◌+◌, ◌≤◌, ◌<◌, ◌≡◌, refl, Bool, true, false, Option, none, some, String, List, [], ◌∷◌,
  if◌then◌else◌, arith, count_if, Dict,
}
use worshiptool_churchtools.Sync.Errors.{Result, ok, raise, Raised}
use worshiptool_churchtools.Sync.Models.{
  ActionExecution, EventPlan, EventPlanStatus, RunStatus, SyncPlan,
}
use worshiptool_churchtools.Sync.Platform.{Platform}
use worshiptool_churchtools.Sync.Engine.Calls.{Ports, World, Action, pure, fail, and_then, ◌>>=◌}
use worshiptool_churchtools.Sync.Engine.Status.{
  RunProgress, final_status, is_problem, is_ready_event,
}
use worshiptool_churchtools.Sync.Engine.Plan.{
  apply_locked, apply_target, apply_by, apply_events, apply_prepared, apply_with, apply_plan,
  with_success, with_failure, status_of_run,
}

abbrev Holds : {A : Type 0} → (A → Type 0) → Result A → Type 0
Holds P (ok a) = P a
Holds P (raise e) = Unit

-- Whatever the action returns has the property.
record Post {A : Type 0} (P : A → Type 0) (m : Action A) : Type 0 where
  holds : (w : World) → Holds P (m w).0

module _ {A : Type 0} {P : A → Type 0} where
  Post-pure : (a : A) → P a → Post P (pure a)
  unfolding pure
  Post-pure a h = record { holds = λ w. h }

  Post-fail : (e : Raised) → Post P (fail e)
  unfolding fail
  Post-fail e = record { holds = λ w. tt }

  Post-if : {m m' : Action A} (test : Bool) → Post P m → Post P m' → Post P (if test then m else m')
  Post-if true h k = h
  Post-if false h k = k

module _ {A B : Type 0} {P : B → Type 0} where
  Holds-and_then :
      (r : Result A × World) (k : A → Action B)
      → ((a : A) → Post P (k a))
      → Holds P (and_then r k).0
  Holds-and_then (ok a, w) k h = (h a).holds w
  Holds-and_then (raise e, w) k h = tt

  Post-bind : (m : Action A) {k : A → Action B} → ((a : A) → Post P (k a)) → Post P (m >>= k)
  unfolding ◌>>=◌
  Post-bind m {k} h = record { holds = λ w. Holds-and_then (m w) k h }

  Holds-then :
      {Q : A → Type 0} (r : Result A × World) (k : A → Action B)
      → Holds Q r.0
      → ((a : A) → Q a → Post P (k a))
      → Holds P (and_then r k).0
  Holds-then (ok a, w) k q h = (h a q).holds w
  Holds-then (raise e, w) k q h = tt

  Post-then :
      {Q : A → Type 0} {m : Action A} {k : A → Action B}
      → Post Q m
      → ((a : A) → Q a → Post P (k a))
      → Post P (m >>= k)
  unfolding ◌>>=◌
  Post-then {Q} {m} {k} q h = record { holds = λ w. Holds-then (m w) k (q.holds w) h }

-- At least so many failures were counted, unless the run was canceled.
abbrev Counts : ℕ → Option RunProgress → Type 0
Counts n none = Unit
Counts n (some r) = n ≤ r.event_failures

abbrev problem_count : List EventPlan → ℕ
problem_count events = count_if is_problem events

abbrev failed_count : EventPlanStatus → ℕ
failed_count EventPlanStatus.ambiguous = 1
failed_count EventPlanStatus.failed = 1
failed_count _ = 0

Counts-weaken : (n k : ℕ) (o : Option RunProgress) → n ≤ k → Counts k o → Counts n o
Counts-weaken n k none h c = tt
Counts-weaken n k (some r) h c = omega arith

Holds-weaken :
    (n k : ℕ) (r : Result (Option RunProgress)) → n ≤ k → Holds (Counts k) r → Holds (Counts n) r
Holds-weaken n k (ok o) h c = Counts-weaken n k o h c
Holds-weaken n k (raise e) h c = tt

Post-weaken :
    {m : Action (Option RunProgress)} (n k : ℕ) → n ≤ k → Post (Counts k) m → Post (Counts n) m
Post-weaken {m} n k h c = record { holds = λ w. Holds-weaken n k (m w).0 h (c.holds w) }

-- What the rest of a loop counts, from where it starts.
abbrev Continues : ℕ → (RunProgress → Action (Option RunProgress)) → Type 0
Continues n k = (r : RunProgress) → Post (Counts (r.event_failures + n)) (k r)

module _ (p : Platform) (ports : Ports) (prior : Dict ActionExecution) where
  Post-apply_locked :
      {k : RunProgress → Action (Option RunProgress)} (n : ℕ) (event : EventPlan) (id : String)
      (progress : RunProgress) (locked : Bool)
      → Continues n k
      → Post
          (Counts (progress.event_failures + n))
          (apply_locked p ports prior event id k progress locked)
  unfolding apply_locked
  Post-apply_locked n event id progress true h = Post-bind _ (λ success. Post-bind _ (λ canceled.
      Post-if canceled (Post-pure none tt) (
        Post-if success (h (with_success p ports prior progress))
          (Post-weaken _ _ (omega arith) (h (with_failure p ports prior progress))))))
  Post-apply_locked n event id progress false h =
      Post-bind _ (λ u. Post-weaken _ _ (omega arith) (h (with_failure p ports prior progress)))

  Post-apply_target :
      {k : RunProgress → Action (Option RunProgress)} (n : ℕ) (event : EventPlan)
      (target : Option String) (progress : RunProgress)
      → Continues n k
      → Post
          (Counts (progress.event_failures + n))
          (apply_target p ports prior event target k progress)
  unfolding apply_target
  Post-apply_target n event none progress h = Post-fail Raised.other
  Post-apply_target n event (some id) progress h =
      Post-bind _ (λ locked. Post-apply_locked n event id progress locked h)

  Post-apply_by :
      {k : RunProgress → Action (Option RunProgress)} (n : ℕ) (event : EventPlan)
      (progress : RunProgress) (status : EventPlanStatus)
      → Continues n k
      → Post
          (Counts (progress.event_failures + (failed_count status + n)))
          (apply_by p ports prior event k progress status)
  unfolding apply_by
  Post-apply_by n event progress EventPlanStatus.ready h = Post-bind _ (λ canceled.
      Post-if canceled (Post-pure none tt) (
        Post-weaken _ _ (omega arith) (Post-apply_target n event event.target_event_id progress h)))
  Post-apply_by n event progress EventPlanStatus.ambiguous h =
      Post-weaken _ _ (omega arith) (h (with_failure p ports prior progress))
  Post-apply_by n event progress EventPlanStatus.failed h =
      Post-weaken _ _ (omega arith) (h (with_failure p ports prior progress))
  Post-apply_by n event progress EventPlanStatus.skipped h =
      Post-weaken _ _ (omega arith) (h progress)

  problem_count_lem :
      (event : EventPlan) → (if is_problem event then 1 else 0) ≡ failed_count event.status
  problem_count_lem event = ground arith

  Post-apply_events :
      (events : List EventPlan)
      → Continues (problem_count events) (apply_events p ports prior events)
  unfolding apply_events
  Post-apply_events [] progress = Post-pure (some progress) (omega arith)
  Post-apply_events (event ∷ events) progress =
      Post-weaken _ _ (ground (arith, problem_count_lem event)) (
        Post-apply_by (problem_count events) event progress event.status (Post-apply_events events))

  -- What a success promises.
  abbrev Succeeds : SyncPlan → RunStatus → Type 0
  Succeeds plan status =
      status ≡ RunStatus.succeeded
      → (problem_count plan.events ≡ 0) × (0 < count_if is_ready_event plan.events)

  Succeeds-final_status :
      (plan : SyncPlan) (r : RunProgress)
      → problem_count plan.events ≤ r.event_failures
      → Succeeds plan (final_status plan r)
  unfolding final_status
  Succeeds-final_status plan r h s = (ground arith, ground arith)

  Succeeds-status_of_run :
      (plan : SyncPlan) (o : Option RunProgress)
      → Counts (problem_count plan.events) o
      → Succeeds plan (status_of_run p ports prior plan o)
  Succeeds-status_of_run plan none h s = cc
  Succeeds-status_of_run plan (some r) h s = Succeeds-final_status plan r h s

  Post-apply_prepared :
      (plan : SyncPlan) (verified : Option ℕ)
      → Post (Succeeds plan) (apply_prepared p ports prior plan verified)
  unfolding apply_prepared
  Post-apply_prepared plan none = Post-pure RunStatus.canceled (λ s. cc)
  Post-apply_prepared plan (some verified) =
      Post-then
        (Post-weaken (problem_count plan.events) _ (omega arith) (Post-apply_events plan.events _))
        (λ o c. Post-pure _ (Succeeds-status_of_run plan o c))

  Post-apply_with : (plan : SyncPlan) → Post (Succeeds plan) (apply_with p ports prior plan)
  unfolding apply_with
  Post-apply_with plan =
      Post-bind _ (λ u. Post-bind _ (λ verified. Post-apply_prepared plan verified))

Post-apply_plan :
    (p : Platform) (ports : Ports) (plan : SyncPlan)
    → Post
        (λ (status : RunStatus).
          status ≡ RunStatus.succeeded
          → (problem_count plan.events ≡ 0) × (0 < count_if is_ready_event plan.events))
        (apply_plan p ports plan)
unfolding apply_plan
Post-apply_plan p ports plan = Post-bind _ (λ prior. Post-apply_with p ports prior plan)

-- A run is reported as succeeded only if its plan has an event that is ready and none that is
-- ambiguous or failed, whatever the provider and the repository answer.
pub apply_plan-succeeded :
    (p : Platform) (ports : Ports) (plan : SyncPlan) (w : World)
    → (apply_plan p ports plan w).0 ≡ ok RunStatus.succeeded
    → (count_if is_problem plan.events ≡ 0) × (0 < count_if is_ready_event plan.events)
apply_plan-succeeded p ports plan w h =
    let post = (Post-apply_plan p ports plan).holds w in (rw h at post) refl
