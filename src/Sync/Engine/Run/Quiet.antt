-- ===== src/Sync/Engine/Run/Quiet.antt =====
-- What `execute` does without writing to the target: all of a dry run.
use worshiptool_churchtools.Prelude.{
  ◌≤◌, String, ◌≡◌, refl, true, List, [], ◌∷◌, Option, none, some, arith,
}
use worshiptool_churchtools.Sync.Errors.{ok, Raised}
use worshiptool_churchtools.Sync.Models.{Agenda, RunSpecification, SyncPlan, RunStatus}
use worshiptool_churchtools.Sync.Platform.{Platform}
use worshiptool_churchtools.Sync.Fingerprints.{Digests}
use worshiptool_churchtools.Sync.Engine.Calls.{Call, Ports, World, writes, ◌>>=◌, perform}
use worshiptool_churchtools.Sync.Engine.Budget.{
  Budget, Budget-bound, Budget-pure, Budget-read, Budget-handle, Budget-fail, Budget-if, quiet,
  Quiet-bind,
}
use worshiptool_churchtools.Sync.Engine.Run.{
  Intake, Agendas, fetch_agenda, keep_agenda, fetch_agendas, draw_up, persist, durable_plan,
  carry_out, conclude_run, attempt_run, execute_claimed, execute,
}

module _ (p : Platform) (digests : Digests) (ports : Ports) (intake : Intake) where
  Budget-fetch_agenda : (id : String) → Budget 0 (fetch_agenda p digests ports intake id)
  unfolding fetch_agenda
  Budget-fetch_agenda id =
      Budget-handle {n = 0} (search quiet) (λ e. Budget-if _ (Budget-pure _) (Budget-fail e))

  Budget-keep_agenda :
      (id : String) (found : Agendas) (answer : Option Agenda)
      → Budget 0 (keep_agenda p digests ports intake id found answer)
  unfolding keep_agenda
  Budget-keep_agenda id found none = Budget-pure _
  Budget-keep_agenda id found (some agenda) = search quiet

  Budget-fetch_agendas :
      (ids : List String) (found : Agendas)
      → Budget 0 (fetch_agendas p digests ports intake ids found)
  unfolding fetch_agendas
  Budget-fetch_agendas [] found = Budget-pure found
  Budget-fetch_agendas (id ∷ ids) found =
      Quiet-bind (Quiet-bind (Budget-fetch_agenda id) (Budget-keep_agenda id found))
        (Budget-fetch_agendas ids)

  pub Budget-draw_up :
      (run_id : String) (spec : RunSpecification)
      → Budget 0 (draw_up p digests ports intake run_id spec)
  unfolding draw_up
  Budget-draw_up run_id spec = search (quiet, Budget-fetch_agendas) depth 24

  pub Budget-conclude_run :
      (status : RunStatus) (error : Option Raised)
      → Budget 0 (conclude_run p digests ports intake status error)
  unfolding conclude_run
  Budget-conclude_run status error = search quiet

  Budget-durable_plan :
      (run_id : String) (spec : RunSpecification) (stored : Option SyncPlan)
      → Budget 0 (durable_plan p digests ports intake run_id spec stored)
  unfolding durable_plan persist
  Budget-durable_plan run_id spec none =
      Quiet-bind (Budget-draw_up run_id spec) (λ plan. search quiet)
  Budget-durable_plan run_id spec (some plan) = Budget-if _ (Budget-fail _) (Budget-pure plan)

  Budget-dry_attempt :
      (run_id : String) (spec : RunSpecification)
      → spec.dry_run ≡ true
      → Budget 0 (attempt_run p digests ports intake run_id spec)
  unfolding attempt_run carry_out
  Budget-dry_attempt run_id spec dry = Quiet-bind (Budget-read _ _ refl) (λ u.
      Quiet-bind (Quiet-bind (Budget-read _ _ refl) (Budget-durable_plan run_id spec))
        (λ plan. rw dry (Quiet-bind (Budget-pure _) (λ status. Budget-conclude_run status none))))

  Budget-dry_run :
      (run_id : String) (spec : RunSpecification)
      → spec.dry_run ≡ true
      → Budget 0 (execute_claimed p digests ports intake run_id (some spec))
  unfolding execute_claimed
  Budget-dry_run run_id spec dry =
      Budget-handle {n = 0} (Budget-dry_attempt run_id spec dry)
        (λ e. Budget-conclude_run RunStatus.failed (some e))

  -- A dry run changes nothing in the target: where the run that is claimed is a dry run, no call
  -- of `execute` is a write.
  pub execute-writes_nothing :
      (run_id : String) (w : World) (spec : RunSpecification)
      → intake.claimed (Call.claim ∷ w.calls) ≡ ok (some spec)
      → spec.dry_run ≡ true
      → writes (execute p digests ports intake run_id w).1 ≤ writes w
  unfolding execute ◌>>=◌ perform
  execute-writes_nothing run_id w spec claimed dry =
      let read_world : World = record w { calls = Call.claim ∷ w.calls } in
      rw claimed (ground (arith, Budget-bound (Budget-dry_run run_id spec dry) read_world))
