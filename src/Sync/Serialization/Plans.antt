-- ===== src/Sync/Serialization/Plans.antt =====
-- The plan of backend/app/sync/models.py as it is stored: with the texts and mappings that the other
-- modules replace by records. The values of a mapping are the ones that JSON has too.
use worshiptool_churchtools.Prelude.{ℕ, String, Option, List}
use worshiptool_churchtools.Sync.Models.{ActionKind, EventPlanStatus, IssueSeverity}
use worshiptool_churchtools.Sync.Serialization.Json.{Fields}

-- `PlanIssue`
pub record StoredIssue : Type 0 where
  pub code : String
  pub message : String
  pub severity : IssueSeverity
  pub details : Fields

-- `PlannedAction`
pub record StoredAction : Type 0 where
  pub id : String
  pub ordinal : ℕ
  pub kind : ActionKind
  pub payload : Fields
  pub event_plan_id : Option String
  pub dependencies : List String

-- `EventPlan`
pub record StoredEvent : Type 0 where
  pub id : String
  pub source_event_id : String
  pub target_event_id : Option String
  pub status : EventPlanStatus
  pub source_event_name : Option String
  pub source_event_starts_at : Option (List ℕ)
  pub target_event_name : Option String
  pub target_event_starts_at : Option ℕ
  pub initial_agenda_fingerprint : Option String
  pub source_fingerprint : Option String
  pub config_fingerprint : Option String
  pub actions : List StoredAction
  pub issues : List StoredIssue

-- `SyncPlan`
pub record StoredPlan : Type 0 where
  pub run_id : String
  pub profile_id : String
  pub profile_revision : ℕ
  pub created_at : ℕ
  pub preparation_actions : List StoredAction
  pub events : List StoredEvent
