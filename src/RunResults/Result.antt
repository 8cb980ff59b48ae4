-- ===== src/RunResults/Result.antt =====
-- `build_run_result`.
use Prim.Native.String
use worshiptool_churchtools.Prelude.{
  ℕ, String, Bool, true, false, Option, none, some, List, [], ◌∷◌, ◌++◌, map, if◌then◌else◌, length,
  count_if, Dict,
}
use worshiptool_churchtools.Sync.Models.{
  ActionError, EventPlan, IssueCode, IssueSeverity, PlanIssue, RunStatus, SyncPlan,
}
use worshiptool_churchtools.Sync.Planner.Events.{dependencies_of}
use worshiptool_churchtools.RunStore.State.{ActionRow, Run, RunError}
use worshiptool_churchtools.RunResults.Status.{
  ActionCounts, ResultStatus, action_counts, event_status, is_unfinished, rows_for_actions,
}
use worshiptool_churchtools.RunResults.Songs.{CreatedSong, Songs, songs_of, verified_created_songs}

pub data Phase : Type 0 where
  planning execution whole_run : Phase

pub data MessageCode : Type 0 where
  issue : IssueCode → MessageCode
  action_error : ActionError → MessageCode
  run_error : RunError → MessageCode
  run_failed : MessageCode

pub record RunResultMessage : Type 0 where
  pub code : MessageCode
  pub severity : IssueSeverity
  pub phase : Phase

pub record RunEventResult : Type 0 where
  pub id : String
  pub status : ResultStatus
  pub source_event_id : Option String
  pub target_event_id : Option String
  pub source_event_name : Option String
  pub source_event_starts_at : Option (List ℕ)
  pub target_event_name : Option String
  pub target_event_starts_at : Option ℕ
  pub messages : List RunResultMessage
  pub action_counts : ActionCounts
  pub action_total : ℕ
  pub new_songs : List CreatedSong

pub record SyncRunResult : Type 0 where
  pub total : ℕ
  pub planned : ℕ
  pub verified : ℕ
  pub skipped : ℕ
  pub failed : ℕ
  pub events : List RunEventResult
  pub preparation_action_counts : ActionCounts
  pub preparation_action_total : ℕ

abbrev pub issue_message : PlanIssue → RunResultMessage
issue_message i = record {
  code = MessageCode.issue i.code;
  severity = i.severity;
  phase = Phase.planning;
}

abbrev pub row_message :
    ActionRow → Option ActionError → List RunResultMessage → List RunResultMessage
row_message row none messages = messages
row_message row (some error) messages =
    record {
      code = MessageCode.action_error error;
      severity = if is_unfinished row then IssueSeverity.error else IssueSeverity.warning;
      phase = Phase.execution;
    }
    ∷ messages

unfoldable pub row_messages : List ActionRow → List RunResultMessage
row_messages [] = []
row_messages (row ∷ rows) = row_message row row.error (row_messages rows)

-- `_event_result`
unfoldable pub event_result : Run → Dict ActionRow → Songs → EventPlan → RunEventResult
unfolding row_messages
event_result run row_by_id created_songs event =
    let rows = rows_for_actions event.actions row_by_id in
    record {
      id = event.id;
      status = event_status run.status run.dry_run event.status rows;
      source_event_id = some event.source_event_id;
      target_event_id = event.target_event_id;
      source_event_name = event.source_event_name;
      source_event_starts_at = event.source_event_starts_at;
      target_event_name = event.target_event_name;
      target_event_starts_at = event.target_event_starts_at;
      messages = map issue_message event.issues ++ row_messages rows;
      action_counts = action_counts rows;
      action_total = length rows;
      new_songs = songs_of (dependencies_of event.actions) created_songs;
    }

abbrev pub is_withdrawn : RunStatus → Bool
is_withdrawn RunStatus.canceled = true
is_withdrawn RunStatus.skipped = true
is_withdrawn _ = false

abbrev pub is_open : RunStatus → Bool
is_open RunStatus.queued = true
is_open RunStatus.running = true
is_open _ = false

abbrev pub code_of : Option RunError → MessageCode
code_of none = MessageCode.run_failed
code_of (some e) = MessageCode.run_error e

-- The one result of a run without a plan.
unfoldable pub synthetic_result : Run → RunEventResult
synthetic_result run = record {
  id = String.◌++◌ "run:" run.id;
  status = if is_withdrawn run.status then ResultStatus.skipped else ResultStatus.failed;
  source_event_id = none;
  target_event_id = none;
  source_event_name = none;
  source_event_starts_at = none;
  target_event_name = none;
  target_event_starts_at = none;
  messages =
      record {
        code = code_of run.error;
        severity = if is_withdrawn run.status then IssueSeverity.warning else IssueSeverity.error;
        phase = Phase.whole_run;
      }
      ∷ [];
  action_counts = action_counts [];
  action_total = 0;
  new_songs = [];
}

abbrev pub synthetic_by : Run → Option RunError → List RunEventResult
synthetic_by run none = if is_open run.status then [] else synthetic_result run ∷ []
synthetic_by run (some error) = synthetic_result run ∷ []

-- `_synthetic_results`
unfoldable pub synthetic_results : Run → List RunEventResult
unfolding synthetic_result
synthetic_results run = synthetic_by run run.error

abbrev pub is_planned_result : RunEventResult → Bool
is_planned_result event = elim event.status [ ResultStatus.planned ↦ true | _ ↦ false ]

abbrev pub is_verified_result : RunEventResult → Bool
is_verified_result event = elim event.status [ ResultStatus.verified ↦ true | _ ↦ false ]

abbrev pub is_skipped_result : RunEventResult → Bool
is_skipped_result event = elim event.status [ ResultStatus.skipped ↦ true | _ ↦ false ]

abbrev pub is_failed_result : RunEventResult → Bool
is_failed_result event = elim event.status [ ResultStatus.failed ↦ true | _ ↦ false ]

-- The totals of `Counter(event.status for event in events)`, with the preparation's rows.
unfoldable pub summed : List RunEventResult → List ActionRow → SyncRunResult
summed events preparation_rows = record {
  total = length events;
  planned = count_if is_planned_result events;
  verified = count_if is_verified_result events;
  skipped = count_if is_skipped_result events;
  failed = count_if is_failed_result events;
  events = events;
  preparation_action_counts = action_counts preparation_rows;
  preparation_action_total = length preparation_rows;
}

unfoldable pub build_by : Run → Dict ActionRow → Option (String × SyncPlan) → SyncRunResult
unfolding summed synthetic_results event_result
build_by run row_by_id none = summed (synthetic_results run) []
build_by run row_by_id (some (fingerprint, plan)) =
    summed
      (map
        (event_result run row_by_id (verified_created_songs plan.preparation_actions row_by_id []))
        plan.events)
      (rows_for_actions plan.preparation_actions row_by_id)

-- `build_run_result`, with the rows by the hexadecimal of their ids
unfoldable pub build_run_result : Run → Dict ActionRow → SyncRunResult
unfolding build_by
build_run_result run row_by_id = build_by run row_by_id run.plan
