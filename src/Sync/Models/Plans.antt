-- ===== src/Sync/Models/Plans.antt =====
-- Plans and the executions of their actions.
use worshiptool_churchtools.Prelude.{ℕ, String, Bool, true, false, Option, none, List, []}
use worshiptool_churchtools.Sync.Errors.{SyncError}

pub data RunStatus : Type 0 where
  queued running succeeded partial failed canceled skipped : RunStatus

pub data EventPlanStatus : Type 0 where
  ready ambiguous failed skipped : EventPlanStatus

pub data ActionKind : Type 0 where
  create_song create_arrangement insert_item replace_item delete_owned_item noop : ActionKind

pub data ActionStatus : Type 0 where
  planned applied verified failed skipped : ActionStatus

pub data IssueSeverity : Type 0 where
  info warning error : IssueSeverity

-- The codes of the issues that matching and planning report.
pub data IssueCode : Type 0 where
  source_unchanged source_song_missing source_song_ambiguous target_song_ambiguous : IssueCode
  target_song_missing agenda_missing placements_missing placement_overlap : IssueCode
  anchor_not_found anchor_not_unique anchor_multiple_first_selected : IssueCode
  agenda_item_owned_by_other_profile owned_agenda_item_changed regex_timeout : IssueCode
  event_not_found event_ambiguous target_event_reused regex_engine_unavailable : IssueCode
  invalid_regex : IssueCode

-- `message` and `details` are texts for people.
pub record PlanIssue : Type 0 where
  pub code : IssueCode
  pub severity : IssueSeverity

-- An issue with the default severity.
abbrev pub error_issue : IssueCode → PlanIssue
error_issue code = record { code = code; severity = IssueSeverity.error }

-- The keys of `PlannedAction.payload`, over all kinds of action. A mark that is absent is false.
pub record Payload : Type 0 where
  pub source_song_id : Option String
  pub name : Option String
  pub author : Option String
  pub ccli : Option String
  pub category_id : Option ℕ
  pub arrangement_name : Option String
  pub song_resource_key : Option String
  pub arrangement_resource_key : Option String
  pub target_song_id : Option String
  pub target_song_key : Option String
  pub arrangement_id : Option String
  pub arrangement_key : Option String
  pub resource_key : Option String
  pub profile_id : Option String
  pub target_event_id : Option String
  pub source_key : Option String
  pub placement_id : Option String
  pub agenda_item_id : Option String
  pub already_owned : Bool
  pub cleanup_only : Bool
  pub initial_agenda_item_ids : List String
  pub before_item_id : Option String
  pub before_item_key : Option String
  pub after_item_id : Option String
  pub after_item_key : Option String
  pub defaults : List (String × String)

abbrev pub empty_payload : Payload
empty_payload = record {
  source_song_id = none;
  name = none;
  author = none;
  ccli = none;
  category_id = none;
  arrangement_name = none;
  song_resource_key = none;
  arrangement_resource_key = none;
  target_song_id = none;
  target_song_key = none;
  arrangement_id = none;
  arrangement_key = none;
  resource_key = none;
  profile_id = none;
  target_event_id = none;
  source_key = none;
  placement_id = none;
  agenda_item_id = none;
  already_owned = false;
  cleanup_only = false;
  initial_agenda_item_ids = [];
  before_item_id = none;
  before_item_key = none;
  after_item_id = none;
  after_item_key = none;
  defaults = [];
}

pub record PlannedAction : Type 0 where
  pub id : String
  pub ordinal : ℕ
  pub kind : ActionKind
  pub payload : Payload
  pub event_plan_id : Option String
  pub dependencies : List String

abbrev pub mutates_kind : ActionKind → Bool
mutates_kind ActionKind.insert_item = true
mutates_kind ActionKind.replace_item = true
mutates_kind ActionKind.delete_owned_item = true
mutates_kind _ = false

abbrev pub mutates_agenda : PlannedAction → Bool
mutates_agenda action = mutates_kind action.kind

pub record EventPlan : Type 0 where
  pub id : String
  pub source_event_id : String
  pub target_event_id : Option String
  pub status : EventPlanStatus
  pub source_event_name : Option String
  pub source_event_starts_at : Option (List ℕ)
  pub target_event_name : Option String
  pub target_event_starts_at : Option ℕ
  pub initial_agenda_fingerprint : Option String
  pub source_fingerprint : Option String
  pub config_fingerprint : Option String
  pub actions : List PlannedAction
  pub issues : List PlanIssue

pub record SyncPlan : Type 0 where
  pub run_id : String
  pub profile_id : String
  pub profile_revision : ℕ
  pub created_at : ℕ
  pub preparation_actions : List PlannedAction
  pub events : List EventPlan

-- The keys of the result of an execution.
pub record ActionResult : Type 0 where
  pub agenda_item_id : Option String
  pub song_id : Option String
  pub arrangement_id : Option String
  pub target_song_id : Option String
  pub song_resource_key : Option String
  pub arrangement_resource_key : Option String
  pub resource_key : Option String
  pub agenda_fingerprint : Option String
  pub deleted : Bool
  pub noop : Bool

abbrev pub empty_result : ActionResult
empty_result = record {
  agenda_item_id = none;
  song_id = none;
  arrangement_id = none;
  target_song_id = none;
  song_resource_key = none;
  arrangement_resource_key = none;
  resource_key = none;
  agenda_fingerprint = none;
  deleted = false;
  noop = false;
}

-- The `kind` of the error of an execution.
pub data ActionError : Type 0 where
  dependency_failed lease_lost catalog_locked event_locked : ActionError
  event_dependency_failed event_reverification_failed event_reconciliation_failed : ActionError
  agenda_changed event_action_failed internal : ActionError
  provider_error : SyncError → ActionError

pub record ActionExecution : Type 0 where
  pub action_id : String
  pub status : ActionStatus
  pub result : ActionResult
  pub error : Option ActionError

abbrev pub is_ready : EventPlanStatus → Bool
is_ready EventPlanStatus.ready = true
is_ready _ = false

abbrev pub is_error : PlanIssue → Bool
is_error issue = elim issue.severity [ IssueSeverity.error ↦ true | _ ↦ false ]
