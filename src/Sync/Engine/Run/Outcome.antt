-- ===== src/Sync/Engine/Run/Outcome.antt =====
-- What `execute` returns and what it reports to the repository.
use worshiptool_churchtools.Prelude.{
  String, ◌≡◌, refl, ap, Bool, true, false, Option, none, some, List, ◌∷◌, if◌then◌else◌,
}
use worshiptool_churchtools.Sync.Errors.{Result, ok, raise, Raised}
use worshiptool_churchtools.Sync.Models.{RunSpecification, RunStatus}
use worshiptool_churchtools.Sync.Platform.{Platform}
use worshiptool_churchtools.Sync.Fingerprints.{Digests}
use worshiptool_churchtools.Sync.Engine.Calls.{
  Call, Ports, World, Action, and_then, or_else, handle, ◌>>=◌, perform, pure,
}
use worshiptool_churchtools.Sync.Engine.Run.{
  Intake, conclude_run, attempt_run, execute_claimed, execute,
}

abbrev Outcome : Type 0
Outcome = Option RunStatus

-- The last call is a `finish` with the status, and the repository took it.
pub record IsFinished (ports : Ports) (status : RunStatus) (calls : List Call) : Type 0 where
  pub error : Option Raised
  pub before : List Call
  pub last : calls ≡ Call.finish status error ∷ before
  pub taken : ports.flag calls ≡ ok true

module _ (ports : Ports) where
  record Ends (m : Action Outcome) : Type 0 where
    ends :
        (w : World) (status : RunStatus)
        → (m w).0 ≡ ok (some status)
        → IsFinished ports status (m w).1.calls

  and_then-Ends :
      {A : Type 0} (r : Result A × World) (f : A → Action Outcome) (status : RunStatus)
      → ((a : A) → Ends (f a))
      → (and_then r f).0 ≡ ok (some status)
      → IsFinished ports status (and_then r f).1.calls
  and_then-Ends (ok a, w) f status s h = (s a).ends w status h
  and_then-Ends (raise e, w) f status s h = cc

  Ends-bind :
      {A : Type 0} (m : Action A) {f : A → Action Outcome} → ((a : A) → Ends (f a)) → Ends (m >>= f)
  unfolding ◌>>=◌
  Ends-bind m {f} s = record { ends = λ w status h. and_then-Ends (m w) f status s h }

  or_else-Ends :
      (r : Result Outcome × World) (f : Raised → Action Outcome) (status : RunStatus)
      → (r.0 ≡ ok (some status) → IsFinished ports status r.1.calls)
      → ((e : Raised) → Ends (f e))
      → (or_else r f).0 ≡ ok (some status)
      → IsFinished ports status (or_else r f).1.calls
  or_else-Ends (ok a, w) f status k s h = k h
  or_else-Ends (raise e, w) f status k s h = (s e).ends w status h

  Ends-handle :
      {m : Action Outcome} {f : Raised → Action Outcome}
      → Ends m
      → ((e : Raised) → Ends (f e))
      → Ends (handle m f)
  unfolding handle
  Ends-handle {m} {f} s t = record {
    ends = λ w status h. or_else-Ends (m w) f status (s.ends w status) t h;
  }

  finish-Ends :
      (status : RunStatus) (error : Option Raised) (before : List Call) (w : World)
      (answer : Result Bool) (expected : RunStatus)
      → ports.flag (Call.finish status error ∷ before) ≡ answer
      → w.calls ≡ Call.finish status error ∷ before
      → (and_then (answer, w) (λ finished. pure (if finished then some status else none))).0
        ≡ ok (some expected)
      → IsFinished ports expected
          (and_then (answer, w) (λ finished. pure (if finished then some status else none))).1.calls
  unfolding pure
  finish-Ends status error before w (ok true) expected h k t = record {
    error = error;
    before = before;
    last = rw k (ap (λ (s : RunStatus). Call.finish s error ∷ before) cc);
    taken = rw k h;
  }
  finish-Ends status error before w (ok false) expected h k t = cc
  finish-Ends status error before w (raise e) expected h k t = cc

module _ (p : Platform) (digests : Digests) (ports : Ports) (intake : Intake) where
  Ends-conclude_run :
      (status : RunStatus) (error : Option Raised)
      → Ends ports (conclude_run p digests ports intake status error)
  unfolding conclude_run ◌>>=◌ perform
  Ends-conclude_run status error = record {
    ends = λ w expected h.
        let calls : List Call = Call.finish status error ∷ w.calls in
        finish-Ends ports status error w.calls (record w { calls = calls }) (ports.flag calls)
          expected refl refl h;
  }

  Ends-attempt :
      (run_id : String) (spec : RunSpecification)
      → Ends ports (attempt_run p digests ports intake run_id spec)
  unfolding attempt_run
  Ends-attempt run_id spec =
      Ends-bind ports _ (λ u.
        Ends-bind ports _ (λ plan. Ends-bind ports _ (λ status. Ends-conclude_run status none)))

  Ends-claimed :
      (run_id : String) (claimed : Option RunSpecification)
      → Ends ports (execute_claimed p digests ports intake run_id claimed)
  unfolding execute_claimed pure
  Ends-claimed run_id none = record { ends = λ w status h. cc }
  Ends-claimed run_id (some spec) =
      Ends-handle ports (Ends-attempt run_id spec)
        (λ e. Ends-conclude_run RunStatus.failed (some e))

  Ends-execute : (run_id : String) → Ends ports (execute p digests ports intake run_id)
  unfolding execute
  Ends-execute run_id = Ends-bind ports _ (Ends-claimed run_id)

  -- A status that `execute` returns is the one that the run has in the repository: the last call was
  -- a `finish` with it, and the repository answered that the worker was still the owner.
  pub execute-IsFinished :
      (run_id : String) (w : World) (status : RunStatus)
      → (execute p digests ports intake run_id w).0 ≡ ok (some status)
      → IsFinished ports status (execute p digests ports intake run_id w).1.calls
  execute-IsFinished run_id w status h = (Ends-execute run_id).ends w status h

  concluded :
      (status : RunStatus) (w : World) (answer : Result Bool) (b : Bool)
      → answer ≡ ok b
      → (and_then (answer, w) (λ finished. pure (if finished then some status else none))).0
        ≡ ok (if b then some status else none)
  unfolding pure
  concluded status w answer b h = rw h refl

  recovered :
      (r : Result Outcome × World) (error : Raised → Action Outcome)
      → ((e : Raised) (w : World) → (o : Outcome) × ((error e w).0 ≡ ok o))
      → (o : Outcome) × ((or_else r error).0 ≡ ok o)
  recovered (ok a, w) error h = (a, refl)
  recovered (raise e, w) error h = h e w

  returned :
      (run_id : String) (claimed : Option RunSpecification) (w : World)
      → ((status : RunStatus) (error : Option Raised) (calls : List Call)
          → (b : Bool) × (ports.flag (Call.finish status error ∷ calls) ≡ ok b))
      → (o : Outcome) × ((execute_claimed p digests ports intake run_id claimed w).0 ≡ ok o)
  unfolding execute_claimed handle conclude_run ◌>>=◌ perform pure
  returned run_id none w finishes = (none, refl)
  returned run_id (some spec) w finishes =
      recovered (attempt_run p digests ports intake run_id spec w)
        (λ e. conclude_run p digests ports intake RunStatus.failed (some e))
        (λ e u.
          let answer = finishes RunStatus.failed (some e) u.calls in
          (
            (if answer.0 then some RunStatus.failed else none),
            concluded RunStatus.failed
                (record u { calls = Call.finish RunStatus.failed (some e) ∷ u.calls })
                (ports.flag (Call.finish RunStatus.failed (some e) ∷ u.calls)) answer.0 answer.1,
          ))

  -- No exception of a provider, of the planner or of the repository leaves `execute`: where the
  -- repository answers the claim and every `finish` without an exception, `execute` returns,
  -- whatever the other calls raise.
  pub execute-returns :
      (run_id : String) (w : World) (claimed : Option RunSpecification)
      → intake.claimed (Call.claim ∷ w.calls) ≡ ok claimed
      → ((status : RunStatus) (error : Option Raised) (calls : List Call)
          → (b : Bool) × (ports.flag (Call.finish status error ∷ calls) ≡ ok b))
      → (o : Outcome) × ((execute p digests ports intake run_id w).0 ≡ ok o)
  unfolding execute ◌>>=◌ perform
  execute-returns run_id w claimed h finishes =
      rw h (returned run_id claimed (record w { calls = Call.claim ∷ w.calls }) finishes)
