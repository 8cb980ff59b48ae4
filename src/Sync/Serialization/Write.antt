-- ===== src/Sync/Serialization/Write.antt =====
-- `to_primitive` of a plan.
use worshiptool_churchtools.Prelude.{ℕ, String, Option, none, some, List, [], ◌∷◌}
use worshiptool_churchtools.Sync.Models.{EventPlanStatus, IssueSeverity}
use worshiptool_churchtools.Sync.Planner.Factory.{kind_value}
use worshiptool_churchtools.Sync.Serialization.Json.{
  Json, Items, Fields, null, truth, number, text, array, object, nil, cons, end, field, items_of,
  fields_of,
}
use worshiptool_churchtools.Sync.Serialization.Plans.{
  StoredIssue, StoredAction, StoredEvent, StoredPlan,
}

-- Python's conversions.
pub record Format : Type 0 where
  -- `datetime.isoformat()` in UTC, and `datetime.fromisoformat` of an aware instant
  pub iso : ℕ → String
  pub from_iso : String → Option ℕ
  -- `str` and `int` of a value that is no text and no number
  pub str_of : Json → String
  pub int_of : Json → Option ℕ

-- `to_primitive` of the values of a mapping, of a list and of a mapping.
unfoldable mutual
  pub primitive : Json → Json
  primitive null = null
  primitive (truth b) = truth b
  primitive (number n) = number n
  primitive (text s) = text s
  primitive (array items) = array (primitive_items items)
  primitive (object fs) = object (primitive_fields fs)

  pub primitive_items : Items → Items
  primitive_items nil = nil
  primitive_items (cons item items) = cons (primitive item) (primitive_items items)

  pub primitive_fields : Fields → Fields
  primitive_fields end = end
  primitive_fields (field key value fs) = field key (primitive value) (primitive_fields fs)

-- `EventPlanStatus.value`
abbrev pub status_value : EventPlanStatus → String
status_value EventPlanStatus.ready = "ready"
status_value EventPlanStatus.ambiguous = "ambiguous"
status_value EventPlanStatus.failed = "failed"
status_value EventPlanStatus.skipped = "skipped"

-- `IssueSeverity.value`
abbrev pub severity_value : IssueSeverity → String
severity_value IssueSeverity.info = "info"
severity_value IssueSeverity.warning = "warning"
severity_value IssueSeverity.error = "error"

abbrev pub optional_text : Option String → Json
optional_text none = null
optional_text (some s) = text s

module _ (f : Format) where
  abbrev pub instant : ℕ → Json
  instant t = text (f.iso t)

  abbrev pub optional_instant : Option ℕ → Json
  optional_instant none = null
  optional_instant (some t) = instant t

  abbrev pub optional_instants : Option (List ℕ) → Json
  optional_instants none = null
  optional_instants (some ts) = array (items_of instant ts)

  unfoldable pub issue_json : StoredIssue → Json
  issue_json issue = object (
      fields_of (
        ("code", text issue.code)
        ∷ ("message", text issue.message)
        ∷ ("severity", text (severity_value issue.severity))
        ∷ ("details", object (primitive_fields issue.details))
        ∷ []))

  unfoldable pub action_json : StoredAction → Json
  action_json action = object (
      fields_of (
        ("id", text action.id)
        ∷ ("ordinal", number action.ordinal)
        ∷ ("kind", text (kind_value action.kind))
        ∷ ("payload", object (primitive_fields action.payload))
        ∷ ("event_plan_id", optional_text action.event_plan_id)
        ∷ ("dependencies", array (items_of text action.dependencies))
        ∷ []))

  unfoldable pub event_json : StoredEvent → Json
  event_json event = object (
      fields_of (
        ("id", text event.id)
        ∷ ("source_event_id", text event.source_event_id)
        ∷ ("target_event_id", optional_text event.target_event_id)
        ∷ ("status", text (status_value event.status))
        ∷ ("source_event_name", optional_text event.source_event_name)
        ∷ ("source_event_starts_at", optional_instants event.source_event_starts_at)
        ∷ ("target_event_name", optional_text event.target_event_name)
        ∷ ("target_event_starts_at", optional_instant event.target_event_starts_at)
        ∷ ("initial_agenda_fingerprint", optional_text event.initial_agenda_fingerprint)
        ∷ ("source_fingerprint", optional_text event.source_fingerprint)
        ∷ ("config_fingerprint", optional_text event.config_fingerprint)
        ∷ ("actions", array (items_of action_json event.actions))
        ∷ ("issues", array (items_of issue_json event.issues))
        ∷ []))

  -- `to_primitive` of a `SyncPlan`
  unfoldable pub plan_fields : StoredPlan → Fields
  unfolding action_json event_json
  plan_fields plan = fields_of (
      ("run_id", text plan.run_id)
      ∷ ("profile_id", text plan.profile_id)
      ∷ ("profile_revision", number plan.profile_revision)
      ∷ ("created_at", instant plan.created_at)
      ∷ ("preparation_actions", array (items_of action_json plan.preparation_actions))
      ∷ ("events", array (items_of event_json plan.events))
      ∷ [])
