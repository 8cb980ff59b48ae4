-- ===== src/Sync/Engine/Run/Durable.antt =====
-- The plan of a run is durable before the run writes.
use worshiptool_churchtools.Prelude.{String, ◌≡◌, refl, true, List, ◌∷◌, Option, none, some, arith}
use worshiptool_churchtools.Sync.Errors.{Result, ok, raise}
use worshiptool_churchtools.Sync.Models.{RunSpecification, SyncPlan, RunStatus}
use worshiptool_churchtools.Sync.Platform.{Platform}
use worshiptool_churchtools.Sync.Fingerprints.{Digests}
use worshiptool_churchtools.Sync.Engine.Calls.{Call, Ports, World, and_then, ◌>>=◌, perform}
use worshiptool_churchtools.Sync.Engine.Budget.{Budget-pure, Budget-read, Budget-fail, Budget-if}
use worshiptool_churchtools.Sync.Engine.Plan.Writes.{apply_plan-Trace}
use worshiptool_churchtools.Sync.Engine.Run.{
  Intake, draw_up, persist, durable_plan, carry_out, attempt_run, execute_claimed, execute,
}
use worshiptool_churchtools.Sync.Engine.Run.Quiet.{Budget-draw_up, Budget-conclude_run}
use worshiptool_churchtools.Sync.Engine.Run.Guard.{
  is_stored, is_durable, is_guarded, Secured, Safe, Free, Secures, Trace-free, Safe-quiet,
  Free-Budget, Free-if, Free-bind, Safe-handle, Safe-bind, Secures-bind, Safe-Secures,
  Budget-Secured, Secures-persist,
}

module _ (p : Platform) (digests : Digests) (ports : Ports) (intake : Intake) where
  Secures-drawn :
      (run_id : String) (spec : RunSpecification)
      → Secures ports intake
          (draw_up p digests ports intake run_id spec >>= persist p digests ports intake)
  Secures-drawn run_id spec =
      Safe-Secures ports intake
        (Safe-quiet ports intake (Budget-draw_up p digests ports intake run_id spec))
        (Secures-persist ports intake p digests)

  durable_plan-Secured :
      (run_id : String) (spec : RunSpecification) (answer : Result (Option SyncPlan)) (w : World)
      → is_guarded ports intake w.calls ≡ true
      → (is_stored answer ≡ true → is_durable ports intake w.calls ≡ true)
      → Secured ports intake SyncPlan
          (and_then (answer, w) (durable_plan p digests ports intake run_id spec))
  unfolding durable_plan
  durable_plan-Secured run_id spec (raise e) w h k = record { guarded = h; durable = λ t. cc }
  durable_plan-Secured run_id spec (ok none) w h k = (Secures-drawn run_id spec).secures w h
  durable_plan-Secured run_id spec (ok (some plan)) w h k =
      Budget-Secured ports intake (Budget-if _ (Budget-fail _) (Budget-pure plan)) w h (k refl)

  Secures-durable_plan :
      (run_id : String) (spec : RunSpecification)
      → Secures ports intake
          (perform intake.stored Call.load_plan >>= durable_plan p digests ports intake run_id spec)
  unfolding ◌>>=◌ perform is_guarded is_durable
  Secures-durable_plan run_id spec = record {
    secures = λ w h.
        let calls : List Call = Call.load_plan ∷ w.calls in
        durable_plan-Secured run_id spec (intake.stored calls) (record w { calls = calls })
          (ground (arith, h)) (λ k. ground (arith, k));
  }

  Free-carry_out :
      (spec : RunSpecification) (plan : SyncPlan)
      → Free ports intake (carry_out p digests ports intake spec plan)
  unfolding carry_out
  Free-carry_out spec plan =
      Free-if ports intake spec.dry_run (Free-Budget ports intake (Budget-pure _))
        (record { free = λ w h k. Trace-free ports intake (apply_plan-Trace p ports plan w).1 h k })

  Safe-attempt :
      (run_id : String) (spec : RunSpecification)
      → Safe ports intake (attempt_run p digests ports intake run_id spec)
  unfolding attempt_run
  Safe-attempt run_id spec =
      Safe-bind ports intake (Safe-quiet ports intake (Budget-read _ _ refl)) (λ u.
        Secures-bind ports intake (Secures-durable_plan run_id spec) (λ plan.
          Free-bind ports intake (Free-carry_out spec plan) (λ status.
            Safe-quiet ports intake (Budget-conclude_run p digests ports intake status none))))

  Safe-claimed :
      (run_id : String) (claimed : Option RunSpecification)
      → Safe ports intake (execute_claimed p digests ports intake run_id claimed)
  unfolding execute_claimed
  Safe-claimed run_id none = Safe-quiet ports intake (Budget-pure none)
  Safe-claimed run_id (some spec) = Safe-handle ports intake (Safe-attempt run_id spec) (λ e.
      Safe-quiet ports intake
        (Budget-conclude_run p digests ports intake RunStatus.failed (some e)))

  Safe-execute : (run_id : String) → Safe ports intake (execute p digests ports intake run_id)
  unfolding execute
  Safe-execute run_id =
      Safe-bind ports intake (Safe-quiet ports intake (Budget-read _ _ refl)) (Safe-claimed run_id)

  -- No write reaches the target before the repository has the plan of the run: among all calls of a
  -- run, whatever the providers, the repository and the lease manager answer, each call that changes
  -- the target comes after one that persisted the plan without an exception or loaded it.
  pub execute-is_guarded :
      (run_id : String) (w : World)
      → is_guarded ports intake w.calls ≡ true
      → is_guarded ports intake (execute p digests ports intake run_id w).1.calls ≡ true
  execute-is_guarded run_id w h = (Safe-execute run_id).safe w h
