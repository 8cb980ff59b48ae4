-- ===== src/RunStore/Plan.antt =====
-- `_persist_plan`, `_load_plan`, `_prior_executions`, `_action_started` and `_action_finished`.
use worshiptool_churchtools.Prelude.{
  ℕ, String, Bool, true, false, Option, none, some, List, [], ◌∷◌, ◌++◌, ◌==◌, if◌then◌else◌, get,
  put, Dict, truthy,
}
use worshiptool_churchtools.Sync.Errors.{Raised, Result, ok, raise}
use worshiptool_churchtools.Sync.Models.{
  ActionStatus, ActionExecution, ActionResult, EventPlan, PlannedAction, SyncPlan, empty_result,
}
use worshiptool_churchtools.Sync.Platform.{Platform}
use worshiptool_churchtools.RunStore.State.{
  Run, ActionRow, Store, Tx, truncate, conflict, active_leased_run,
}

-- `a or b` on strings that may be `None`
abbrev pub or_else : Option String → Option String → Option String
or_else a b = if truthy a then a else b

abbrev pub cut : Option String → Option String
cut none = none
cut (some value) = some (truncate 200 value)

abbrev pub or_none : Option String → Option String
or_none a = if truthy a then a else none

-- `event_by_plan_id.get(action.event_plan_id or "")`: the last plan of an id wins in that `dict`.
unfoldable pub plan_of : List EventPlan → PlannedAction → Option EventPlan
plan_of [] action = none
plan_of (event ∷ events) action = elim (plan_of events action) [
  | some later ↦ some later
  | none ↦ elim action.event_plan_id [
    | none ↦ if event.id == "" then some event else none
    | some id ↦ if event.id == id then some event else none
  ]
]

-- `_planned_target_id`
unfoldable pub planned_target_id : PlannedAction → Option String
planned_target_id action = cut (
    or_else action.payload.agenda_item_id
      (or_else action.payload.target_song_id action.payload.target_event_id))

abbrev pub source_id_of : Option EventPlan → PlannedAction → Option String
source_id_of none action =
    or_none (cut (or_else action.payload.source_song_id action.payload.source_key))
source_id_of (some event) action =
    or_none (cut (or_else action.payload.source_song_id (some event.source_event_id)))

abbrev pub target_event_of : Option EventPlan → Option String
target_event_of none = none
target_event_of (some event) = event.target_event_id

unfoldable pub planned_row : String → List EventPlan → PlannedAction → ActionRow
unfolding plan_of planned_target_id
planned_row run_id events action = record {
  run_id = run_id;
  event_id = target_event_of (plan_of events action);
  source_id = source_id_of (plan_of events action) action;
  kind = action.kind;
  status = ActionStatus.planned;
  ordinal = action.ordinal;
  payload = action.payload;
  result = empty_result;
  error = none;
  applied_at = none;
  verified_at = none;
  target_id = planned_target_id action;
}

-- The actions of all events, in order.
unfoldable pub event_actions : List EventPlan → List PlannedAction
event_actions [] = []
event_actions (event ∷ events) = event.actions ++ event_actions events

abbrev pub planned_actions : SyncPlan → List PlannedAction
planned_actions plan = plan.preparation_actions ++ event_actions plan.events

-- `db.add` of each row; a second row of one primary key is an integrity error at the commit.
unfoldable pub add_rows :
    String → List EventPlan → List PlannedAction → Dict ActionRow → Result (Dict ActionRow)
add_rows run_id events [] rows = ok rows
add_rows run_id events (action ∷ actions) rows = elim (get action.id rows) [
  | some row ↦ raise Raised.other
  | none ↦ add_rows run_id events actions (put action.id (planned_row run_id events action) rows)
]

module _ (p : Platform) where
  -- `_persist_plan` on a run that has no plan.
  unfoldable pub store_plan : ℕ → Run → SyncPlan → Tx (Unit {0})
  store_plan now run plan s = elim (add_rows run.id plan.events (planned_actions plan) s.actions) [
    | raise e ↦ raise e
    | ok actions ↦ ok (
      tt,
      record s {
        run = some (record run { plan = some (p.plan_digest plan, plan); planned_at = some now });
        actions = actions;
      },
    )
  ]

  unfoldable pub persist_plan : ℕ → SyncPlan → String → Tx (Unit {0})
  unfolding store_plan
  persist_plan now plan token s = elim (active_leased_run now token s) [
    | raise e ↦ raise e
    | ok run ↦ elim run.plan [
      | some (fingerprint, existing) ↦
          if p.plan_digest existing == p.plan_digest plan then ok (tt, s) else conflict
      | none ↦ store_plan now run plan s
    ]
  ]

  unfoldable pub load_plan : Store → Result (Option SyncPlan)
  load_plan s = elim s.run [
    | none ↦ ok none
    | some run ↦ elim run.plan [
      | none ↦ ok none
      | some (fingerprint, plan) ↦
          if fingerprint == p.plan_digest plan then ok (some plan) else conflict
    ]
  ]

-- A row as the execution that it records.
abbrev pub execution_of : String → ActionRow → ActionExecution
execution_of id row = record {
  action_id = id;
  status = row.status;
  result = row.result;
  error = row.error;
}

unfoldable pub prior_executions : String → Dict ActionRow → Dict ActionExecution
prior_executions run_id [] = []
prior_executions run_id ((id, row) ∷ rows) =
    let rest = prior_executions run_id rows in
    if row.run_id == run_id then (id, execution_of id row) ∷ rest else rest

-- `db.get(SyncAction, id)`, and the test that the row belongs to the run.
unfoldable pub run_action : Run → String → Store → Result ActionRow
run_action run id s = elim (get id s.actions) [
  | none ↦ conflict
  | some row ↦ if row.run_id == run.id then ok row else conflict
]

abbrev pub is_planned : ActionStatus → Bool
is_planned ActionStatus.planned = true
is_planned _ = false

unfoldable pub action_started : ℕ → PlannedAction → String → Tx (Unit {0})
unfolding run_action
action_started now action token s = elim (active_leased_run now token s) [
  | raise e ↦ raise e
  | ok run ↦ elim (run_action run action.id s) [
    | raise e ↦ raise e
    | ok row ↦ if is_planned row.status then ok (tt, s) else conflict
  ]
]

abbrev pub is_final : ActionStatus → Bool
is_final ActionStatus.verified = true
is_final ActionStatus.failed = true
is_final ActionStatus.skipped = true
is_final _ = false

-- An execution that may not replace a row: outcomes do not regress on duplicate delivery.
abbrev pub is_stale : ActionStatus → ActionStatus → Bool
is_stale ActionStatus.applied ActionStatus.planned = true
is_stale ActionStatus.applied ActionStatus.skipped = true
is_stale ActionStatus.applied _ = false
is_stale row execution = is_final row

abbrev pub applied_time : ℕ → ActionStatus → Option ℕ → Option ℕ
applied_time now ActionStatus.applied old = some now
applied_time now ActionStatus.verified none = some now
applied_time now ActionStatus.verified (some t) = some t
applied_time now _ old = old

abbrev pub verified_time : ℕ → ActionStatus → Option ℕ → Option ℕ
verified_time now ActionStatus.verified old = some now
verified_time now _ old = old

abbrev pub result_target : ActionResult → Option String → Option String
result_target result old =
    elim (or_else result.agenda_item_id (or_else result.arrangement_id result.song_id)) [
      | none ↦ old
      | some target ↦ some (truncate 200 target)
    ]

-- The writes of `_action_finished` to a row.
unfoldable pub finished_row : ℕ → ActionExecution → ActionRow → ActionRow
finished_row now execution row = if is_stale row.status execution.status then row else (record row {
  status = execution.status;
  result = execution.result;
  error = execution.error;
  applied_at = applied_time now execution.status row.applied_at;
  verified_at = verified_time now execution.status row.verified_at;
  target_id = result_target execution.result row.target_id;
})

unfoldable pub action_finished : ℕ → ActionExecution → String → Tx (Unit {0})
unfolding run_action finished_row
action_finished now execution token s = elim (active_leased_run now token s) [
  | raise e ↦ raise e
  | ok run ↦ elim (run_action run execution.action_id s) [
    | raise e ↦ raise e
    | ok row ↦ ok (
      tt,
      record s { actions = put execution.action_id (finished_row now execution row) s.actions },
    )
  ]
]
