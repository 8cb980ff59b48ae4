-- ===== src/Sync/Serialization/Read.antt =====
-- `sync_plan_from_dict`.
use worshiptool_churchtools.Prelude.{
  ℕ, String, Option, none, some, List, if◌then◌else◌, ◌==◌, nat_eq,
}
use worshiptool_churchtools.Sync.Errors.{Result, ok, raise, Raised, schema_drift_error}
use worshiptool_churchtools.Sync.Models.{ActionKind, EventPlanStatus, IssueSeverity}
use worshiptool_churchtools.Sync.Serialization.Json.{
  Json, Fields, null, truth, number, text, array, object, nil, cons, end, ◌>>=◌, lookup, mapping,
  list_at, each,
}
use worshiptool_churchtools.Sync.Serialization.Plans.{
  StoredIssue, StoredAction, StoredEvent, StoredPlan,
}
use worshiptool_churchtools.Sync.Serialization.Write.{Format}

-- `ActionKind(value)`
abbrev pub kind_of : String → Option ActionKind
kind_of value =
    if value == "create_song"
    then some ActionKind.create_song
    else if value == "create_arrangement"
    then some ActionKind.create_arrangement
    else if value == "insert_item"
    then some ActionKind.insert_item
    else if value == "replace_item"
    then some ActionKind.replace_item
    else if value == "delete_owned_item"
    then some ActionKind.delete_owned_item
    else if value == "noop"
    then some ActionKind.noop
    else none

-- `EventPlanStatus(value)`
abbrev pub status_of : String → Option EventPlanStatus
status_of value =
    if value == "ready"
    then some EventPlanStatus.ready
    else if value == "ambiguous"
    then some EventPlanStatus.ambiguous
    else if value == "failed"
    then some EventPlanStatus.failed
    else if value == "skipped"
    then some EventPlanStatus.skipped
    else none

-- `IssueSeverity(value)`
abbrev pub severity_of : String → Option IssueSeverity
severity_of value =
    if value == "info"
    then some IssueSeverity.info
    else if value == "warning"
    then some IssueSeverity.warning
    else if value == "error"
    then some IssueSeverity.error
    else none

module _ (f : Format) where
  -- `str(value)`
  abbrev pub str : Json → String
  str (text s) = s
  str v = f.str_of v

  -- `int(value)`
  abbrev pub int : Json → Option ℕ
  int (number n) = some n
  int v = f.int_of v

  -- `_aware_datetime`
  abbrev pub aware : Json → Option ℕ
  aware v = f.from_iso (str v)

  -- `str(item[key]) if item.get(key) is not None else None`
  abbrev pub optional_str : Option Json → Option String
  optional_str none = none
  optional_str (some null) = none
  optional_str (some v) = some (str v)

  abbrev pub optional_aware : Option Json → Option (Option ℕ)
  optional_aware none = some none
  optional_aware (some null) = some none
  optional_aware (some v) = aware v >>= λ t. some (some t)

  abbrev pub optional_awares : Option Json → Option (Option (List ℕ))
  optional_awares none = some none
  optional_awares (some null) = some none
  optional_awares (some (array items)) = each aware items >>= λ ts. some (some ts)
  optional_awares (some v) = none

  -- `item.get("details") or {}`; an empty mapping, list or text, a zero and a false are falsy.
  abbrev pub details_of : Option Json → Option Fields
  details_of none = some end
  details_of (some (object fs)) = some fs
  details_of (some null) = some end
  details_of (some (truth b)) = if b then none else some end
  details_of (some (number n)) = if nat_eq n 0 then some end else none
  details_of (some (text s)) = if s == "" then some end else none
  details_of (some (array nil)) = some end
  details_of (some (array (cons item items))) = none

  -- `IssueSeverity(str(item.get("severity", IssueSeverity.ERROR.value)))`
  abbrev pub severity_in : Option Json → Option IssueSeverity
  severity_in none = some IssueSeverity.error
  severity_in (some v) = severity_of (str v)

  -- `_issue`
  unfoldable pub read_issue : Json → Option StoredIssue
  read_issue value = do
    item ← mapping value
    code ← lookup "code" item
    message ← lookup "message" item
    severity ← severity_in (lookup "severity" item)
    details ← details_of (lookup "details" item)
    some (record { code = str code; message = str message; severity = severity; details = details })

  -- `_action`
  unfoldable pub read_action : Json → Option StoredAction
  read_action value = do
    item ← mapping value
    payload_json ← lookup "payload" item
    payload ← mapping payload_json
    dependencies ← list_at "dependencies" item
    id ← lookup "id" item
    ordinal_json ← lookup "ordinal" item
    ordinal ← int ordinal_json
    kind_json ← lookup "kind" item
    kind ← kind_of (str kind_json)
    names ← each (λ dependency. some (str dependency)) dependencies
    some (record {
      id = str id;
      ordinal = ordinal;
      kind = kind;
      payload = payload;
      event_plan_id = optional_str (lookup "event_plan_id" item);
      dependencies = names;
    })

  -- `_event`
  unfoldable pub read_event : Json → Option StoredEvent
  unfolding read_action read_issue
  read_event value = do
    item ← mapping value
    source_starts ← optional_awares (lookup "source_event_starts_at" item)
    id ← lookup "id" item
    source_event_id ← lookup "source_event_id" item
    status_json ← lookup "status" item
    status ← status_of (str status_json)
    target_starts ← optional_aware (lookup "target_event_starts_at" item)
    action_items ← list_at "actions" item
    actions ← each read_action action_items
    issue_items ← list_at "issues" item
    issues ← each read_issue issue_items
    some (record {
      id = str id;
      source_event_id = str source_event_id;
      target_event_id = optional_str (lookup "target_event_id" item);
      status = status;
      source_event_name = optional_str (lookup "source_event_name" item);
      source_event_starts_at = source_starts;
      target_event_name = optional_str (lookup "target_event_name" item);
      target_event_starts_at = target_starts;
      initial_agenda_fingerprint = optional_str (lookup "initial_agenda_fingerprint" item);
      source_fingerprint = optional_str (lookup "source_fingerprint" item);
      config_fingerprint = optional_str (lookup "config_fingerprint" item);
      actions = actions;
      issues = issues;
    })

  unfoldable pub read_plan : Fields → Option StoredPlan
  unfolding read_event
  read_plan value = do
    action_items ← list_at "preparation_actions" value
    preparation ← each read_action action_items
    event_items ← list_at "events" value
    events ← each read_event event_items
    created_json ← lookup "created_at" value
    created_at ← aware created_json
    run_id ← lookup "run_id" value
    profile_id ← lookup "profile_id" value
    revision_json ← lookup "profile_revision" value
    revision ← int revision_json
    some (record {
      run_id = str run_id;
      profile_id = str profile_id;
      profile_revision = revision;
      created_at = created_at;
      preparation_actions = preparation;
      events = events;
    })

  abbrev pub or_drift : Option StoredPlan → Result StoredPlan
  or_drift none = raise (Raised.sync schema_drift_error)
  or_drift (some plan) = ok plan

  -- `sync_plan_from_dict`
  unfoldable pub sync_plan_from_dict : Fields → Result StoredPlan
  unfolding read_plan
  sync_plan_from_dict value = or_drift (read_plan value)
