-- ===== src/Sync/Engine/Status.antt =====
-- `_dry_run_status`, the status that `_apply_plan` ends with, `_restore_resources` and `_resolve`.
use worshiptool_churchtools.Prelude.{
  ℕ, String, Bool, true, false, Option, none, some, if◌then◌else◌, ◌&&◌, ◌||◌, ◌==◌, nat_eq, ltb,
  count_if, Dict, get, put,
}
use worshiptool_churchtools.Sync.Errors.{Result, ok, raise, Raised, concurrent_modification_error}
use worshiptool_churchtools.Sync.Models.{
  ActionKind, EventPlan, EventPlanStatus, PlannedAction, RunStatus, SyncPlan, is_ready,
  ActionResult,
}

abbrev pub is_problem : EventPlan → Bool
is_problem event = elim event.status [
  | EventPlanStatus.ambiguous ↦ true
  | EventPlanStatus.failed ↦ true
  | _ ↦ false
]

abbrev pub is_ready_event : EventPlan → Bool
is_ready_event event = is_ready event.status

-- `_dry_run_status`
unfoldable pub dry_run_status : SyncPlan → RunStatus
dry_run_status plan =
    let ready = ltb 0 (count_if is_ready_event plan.events) in
    let problems = ltb 0 (count_if is_problem plan.events) in
    if ready && problems
    then RunStatus.partial
    else if ready
    then RunStatus.succeeded
    else if problems
    then RunStatus.failed
    else RunStatus.skipped

-- The counters of `_RunProgress`.
pub record RunProgress : Type 0 where
  pub verified_actions : ℕ
  pub event_successes : ℕ
  pub event_failures : ℕ

-- The end of `_apply_plan`.
unfoldable pub final_status : SyncPlan → RunProgress → RunStatus
final_status plan progress =
    let ready_count = count_if is_ready_event plan.events in
    if nat_eq ready_count 0
    then (if ltb 0 progress.event_failures then RunStatus.failed else RunStatus.skipped)
    else if nat_eq progress.event_failures 0 && nat_eq progress.event_successes ready_count
    then RunStatus.succeeded
    else if ltb 0 progress.event_successes || ltb 0 progress.verified_actions
    then RunStatus.partial
    else RunStatus.failed

-- `a or b` on optional strings
abbrev pub or_option : Option String → Option String → Option String
or_option none b = b
or_option (some a) b = if a == "" then b else some a

-- `if key and value is not None: resources[str(key)] = str(value)`
abbrev pub store_resource : Option String → Option String → Dict String → Dict String
store_resource none value resources = resources
store_resource (some key) none resources = resources
store_resource (some key) (some value) resources =
    if key == "" then resources else put key value resources

-- `_restore_resources`
unfoldable pub restore_resources : PlannedAction → ActionResult → Dict String → Dict String
restore_resources action result resources =
    let key = or_option result.resource_key action.payload.resource_key in
    elim action.kind [
      | ActionKind.create_song ↦
          store_resource
            (or_option result.arrangement_resource_key action.payload.arrangement_resource_key)
            result.arrangement_id
            (store_resource (or_option result.song_resource_key action.payload.song_resource_key)
              result.song_id resources)
      | ActionKind.create_arrangement ↦ store_resource key result.arrangement_id resources
      | _ ↦ store_resource key result.agenda_item_id resources
    ]

abbrev lookup : Option String → Result String
lookup none = raise (Raised.sync concurrent_modification_error)
lookup (some id) = ok id

-- `_resolve`, on the literal and the reference
unfoldable pub resolve : Dict String → Option String → Option String → Result String
resolve resources (some literal) reference = ok literal
resolve resources none none = raise (Raised.sync concurrent_modification_error)
resolve resources none (some reference) = lookup (get reference resources)

abbrev found : Result String → Result (Option String)
found (ok id) = ok (some id)
found (raise e) = raise e

-- `_optional_resolve`
unfoldable pub optional_resolve :
    Dict String → Option String → Option String → Result (Option String)
optional_resolve resources none none = ok none
optional_resolve resources (some literal) reference =
    found (resolve resources (some literal) reference)
optional_resolve resources none (some reference) = found (resolve resources none (some reference))
