-- ===== src/Tests/Requests.antt =====
-- A request that is answered by server errors, a write that times out, and a run's result.
use worshiptool_churchtools.Prelude.{ℕ, ◌≤◌, refl, String, false, none, some, [], ◌∷◌, arith}
use worshiptool_churchtools.Sync.Models.{
  ActionKind, ActionStatus, EventPlanStatus, RunStatus, empty_payload, empty_result,
}
use worshiptool_churchtools.Providers.Http.Body.{LengthHeader, Ending, Response}
use worshiptool_churchtools.Providers.Http.Request.{
  Method, Outside, Reply, default_policy, request_json,
}
use worshiptool_churchtools.Providers.Http.Bounds.{IsBounded, request_json-IsBounded}
use worshiptool_churchtools.RunStore.State.{ActionRow, Run}
use worshiptool_churchtools.RunResults.Status.{
  IsVerifiedEvent, event_status-IsVerifiedEvent, event_status,
}
use worshiptool_churchtools.RunResults.Result.{build_run_result}
use worshiptool_churchtools.RunResults.Totals.{AddsUp, build_run_result-AddsUp}
use worshiptool_churchtools.Tests.Samples.{sample_plan}

abbrev outside : Outside String
outside = record { loads = λ content. none; uniform = λ n low high. high }

upper_within : (n low high : ℕ) → low ≤ high → outside.uniform n low high ≤ high
upper_within n low high h = omega arith

abbrev unavailable : Response
unavailable = record {
  status_code = 503;
  retry_after = none;
  content_length = LengthHeader.absent;
  has_content_encoding = false;
  chunks = [];
  ending = Ending.complete;
}

request_json-IsBounded_example :
    IsBounded outside Method.get default_policy upper_within 4
      (request_json outside Method.get false default_policy (λ n. Reply.response unavailable))
request_json-IsBounded_example =
    request_json-IsBounded outside Method.get default_policy upper_within false
      (λ n. Reply.response unavailable) (omega arith)

abbrev row : ActionRow
row = record {
  run_id = "r1";
  event_id = some "e1";
  source_id = none;
  kind = ActionKind.insert_item;
  status = ActionStatus.verified;
  ordinal = 0;
  payload = empty_payload;
  result = empty_result;
  error = none;
  applied_at = some 60;
  verified_at = some 61;
  target_id = some "i2";
}

abbrev run : Run
run = record {
  id = "r1";
  workspace_id = "ws1";
  config_revision = 1;
  status = RunStatus.succeeded;
  dry_run = false;
  created_at = 5;
  started_at = some 50;
  finished_at = some 70;
  planned_at = some 55;
  dispatch_attempted_at = none;
  lease_owner = none;
  lease_expires_at = none;
  error = none;
  plan = some ("f1", sample_plan);
}

build_run_result-AddsUp_example :
    AddsUp run (("a1", row) ∷ []) (build_run_result run (("a1", row) ∷ []))
build_run_result-AddsUp_example = build_run_result-AddsUp run (("a1", row) ∷ [])

event_status-IsVerifiedEvent_example :
    IsVerifiedEvent RunStatus.succeeded false EventPlanStatus.ready (row ∷ [])
unfolding event_status
event_status-IsVerifiedEvent_example =
    event_status-IsVerifiedEvent RunStatus.succeeded false EventPlanStatus.ready (row ∷ []) refl
