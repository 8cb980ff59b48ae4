-- ===== src/Tests/Runs.antt =====
-- A run that is executed, and one that has ended.
use worshiptool_churchtools.Prelude.{◌≡◌, ◌≢◌, refl, none, some, [], ◌∷◌, get, false, arith, eq_iff}
use worshiptool_churchtools.Sync.Models.{
  RunStatus, ActionKind, ActionStatus, ActionExecution, SyncPlan, empty_payload, empty_result,
}
use worshiptool_churchtools.RunStore.State.{Run, ActionRow, Store, truncate}
use worshiptool_churchtools.RunStore.Api.{cleanup_run}
use worshiptool_churchtools.RunStore.Step.{finishes, records, after_call}
use worshiptool_churchtools.RunStore.Fencing.{other_worker_fenced}
use worshiptool_churchtools.Tests.Samples.{platform}

abbrev plan : SyncPlan
plan = record {
  run_id = "r1";
  profile_id = "p1";
  profile_revision = 1;
  created_at = 50;
  preparation_actions = [];
  events = [];
}

abbrev run_in : RunStatus → Run
run_in status = record {
  id = "r1";
  workspace_id = "w1";
  config_revision = 1;
  status = status;
  dry_run = false;
  created_at = 5;
  started_at = some 10;
  finished_at = none;
  planned_at = some 20;
  dispatch_attempted_at = none;
  lease_owner = some "worker-a";
  lease_expires_at = some 400;
  error = none;
  plan = some ("r1", plan);
}

abbrev applied_row : ActionRow
applied_row = record {
  run_id = "r1";
  event_id = some "t1";
  source_id = none;
  kind = ActionKind.insert_item;
  status = ActionStatus.verified;
  ordinal = 0;
  payload = empty_payload;
  result = empty_result;
  error = none;
  applied_at = some 30;
  verified_at = some 40;
  target_id = none;
}

abbrev store_in : RunStatus → Store
store_in status = record {
  workspace_archived = some false;
  run = some (run_in status);
  profile = none;
  actions = ("a1", applied_row) ∷ [];
  bindings = [];
  checkpoints = [];
}

-- Worker `worker-b` records a failure of the action.
abbrev failure : ActionExecution
failure = record {
  action_id = "a1";
  status = ActionStatus.failed;
  result = empty_result;
  error = none;
}

abbrev running : Store
running = store_in RunStatus.running

abbrev after_failure : Store
after_failure = after_call platform 100 "worker-a" (records failure) running

tokens_differ : "worker-a" ≢ truncate 200 "worker-b"
unfolding truncate
tokens_differ = ground (arith, eq_iff "worker-a" "worker-b")

other_worker_fenced_example : after_call platform 100 "worker-b" (records failure) running ≡ running
other_worker_fenced_example =
    other_worker_fenced platform 100 400 "worker-b" "worker-a" (records failure) running
      (run_in RunStatus.running) refl refl refl refl refl (omega arith) tokens_differ

abbrev ended : Store
ended = store_in RunStatus.succeeded

abbrev late : Store
late = cleanup_run 90 (after_call platform 500 "worker-a" (finishes RunStatus.failed none) ended)

-- The retention removes the run with its action.
cleanup_removes :
    ((cleanup_run 90 ended).run ≡ none) × (get "a1" (cleanup_run 90 ended).actions ≡ none)
unfolding cleanup_run
cleanup_removes = (refl, refl)
