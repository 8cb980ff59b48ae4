-- ===== src/Sync/Serialization/RoundTrip.antt =====
-- A plan that was persisted is read as it was.
use worshiptool_churchtools.Prelude.{ℕ, String, ◌≡◌, refl, ap, Option, none, some, List, [], ◌∷◌}
use worshiptool_churchtools.Sync.Errors.{ok}
use worshiptool_churchtools.Sync.Models.{ActionKind, EventPlanStatus, IssueSeverity}
use worshiptool_churchtools.Sync.Planner.Factory.{kind_value}
use worshiptool_churchtools.Sync.Serialization.Json.{
  Json, Items, Fields, null, truth, number, text, array, object, nil, cons, end, field, each,
  items_of,
}
use worshiptool_churchtools.Sync.Serialization.Plans.{
  StoredIssue, StoredAction, StoredEvent, StoredPlan,
}
use worshiptool_churchtools.Sync.Serialization.Write.{
  Format, status_value, severity_value, instant, optional_text, optional_instant, optional_instants,
  issue_json, action_json, event_json, plan_fields, primitive, primitive_items, primitive_fields,
}
use worshiptool_churchtools.Sync.Serialization.Read.{
  kind_of, status_of, severity_of, str, aware, optional_str, optional_aware, optional_awares,
  read_issue, read_action, read_event, read_plan, sync_plan_from_dict,
}

each-items_of :
    {A : Type 0} (write : A → Json) (read : Json → Option A)
    → ((a : A) → read (write a) ≡ some a)
    → (items : List A) → each read (items_of write items) ≡ some items
unfolding each items_of
each-items_of write read h [] = refl
each-items_of write read h (a ∷ items) = rw (h a, each-items_of write read h items) refl

kind_of-kind_value : (kind : ActionKind) → kind_of (kind_value kind) ≡ some kind
kind_of-kind_value ActionKind.create_song = refl
kind_of-kind_value ActionKind.create_arrangement = refl
kind_of-kind_value ActionKind.insert_item = refl
kind_of-kind_value ActionKind.replace_item = refl
kind_of-kind_value ActionKind.delete_owned_item = refl
kind_of-kind_value ActionKind.noop = refl

status_of-status_value : (status : EventPlanStatus) → status_of (status_value status) ≡ some status
status_of-status_value EventPlanStatus.ready = refl
status_of-status_value EventPlanStatus.ambiguous = refl
status_of-status_value EventPlanStatus.failed = refl
status_of-status_value EventPlanStatus.skipped = refl

severity_of-severity_value :
    (severity : IssueSeverity) → severity_of (severity_value severity) ≡ some severity
severity_of-severity_value IssueSeverity.info = refl
severity_of-severity_value IssueSeverity.warning = refl
severity_of-severity_value IssueSeverity.error = refl

-- The values of a mapping are primitive already.
mutual
  unfolding primitive primitive_items primitive_fields

  primitive_lem : (value : Json) → primitive value ≡ value
  primitive_lem null = refl
  primitive_lem (truth b) = refl
  primitive_lem (number n) = refl
  primitive_lem (text s) = refl
  primitive_lem (array items) = ap array (primitive_items_lem items)
  primitive_lem (object fs) = ap object (primitive_fields_lem fs)

  primitive_items_lem : (items : Items) → primitive_items items ≡ items
  primitive_items_lem nil = refl
  primitive_items_lem (cons item items) = rw (primitive_lem item, primitive_items_lem items) refl

  primitive_fields_lem : (fs : Fields) → primitive_fields fs ≡ fs
  primitive_fields_lem end = refl
  primitive_fields_lem (field key value fs) = rw (primitive_lem value, primitive_fields_lem fs) refl

module _ (f : Format) (from_iso-iso : (t : ℕ) → f.from_iso (f.iso t) ≡ some t) where
  optional_str-text : (s : Option String) → optional_str f (some (optional_text s)) ≡ s
  optional_str-text none = refl
  optional_str-text (some s) = refl

  optional_aware-instant : (t : Option ℕ) → optional_aware f (some (optional_instant f t)) ≡ some t
  optional_aware-instant none = refl
  optional_aware-instant (some t) = rw (from_iso-iso t) refl

  optional_awares-instants :
      (ts : Option (List ℕ)) → optional_awares f (some (optional_instants f ts)) ≡ some ts
  optional_awares-instants none = refl
  optional_awares-instants (some ts) = rw (each-items_of (instant f) (aware f) from_iso-iso ts) refl

  read_issue-issue_json : (issue : StoredIssue) → read_issue f (issue_json f issue) ≡ some issue
  unfolding read_issue issue_json
  read_issue-issue_json issue =
      rw (severity_of-severity_value issue.severity, primitive_fields_lem issue.details) refl

  read_action-action_json :
      (action : StoredAction) → read_action f (action_json f action) ≡ some action
  unfolding read_action action_json
  read_action-action_json action =
      rw
        (
          each-items_of text (λ (d : Json). some (str f d)) (λ d. refl) action.dependencies,
          kind_of-kind_value action.kind,
          primitive_fields_lem action.payload,
          optional_str-text action.event_plan_id,
        )
        refl

  read_event-event_json : (event : StoredEvent) → read_event f (event_json f event) ≡ some event
  unfolding read_event event_json
  read_event-event_json event =
      rw
        (
          optional_awares-instants event.source_event_starts_at,
          status_of-status_value event.status,
          optional_aware-instant event.target_event_starts_at,
          each-items_of (action_json f) (read_action f) read_action-action_json event.actions,
          each-items_of (issue_json f) (read_issue f) read_issue-issue_json event.issues,
          optional_str-text event.target_event_id,
          optional_str-text event.source_event_name,
          optional_str-text event.target_event_name,
          optional_str-text event.initial_agenda_fingerprint,
          optional_str-text event.source_fingerprint,
          optional_str-text event.config_fingerprint,
        )
        refl

  -- A plan that is written as a document is read back as it was in every field: its actions with
  -- their payloads, its events with their instants, and its issues with code, message, severity and
  -- details, where an instant is read as it was written, and the values of the payloads and details
  -- are ones that JSON has.
  pub sync_plan_from_dict-plan_fields :
      (plan : StoredPlan) → sync_plan_from_dict f (plan_fields f plan) ≡ ok plan
  unfolding sync_plan_from_dict plan_fields read_plan
  sync_plan_from_dict-plan_fields plan =
      rw
        (
          each-items_of (action_json f) (read_action f) read_action-action_json
              plan.preparation_actions,
          each-items_of (event_json f) (read_event f) read_event-event_json plan.events,
          from_iso-iso plan.created_at,
        )
        refl
