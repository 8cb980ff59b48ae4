-- ===== src/RunResults/Status.antt =====
-- `_event_status`, `_rows_for_actions` and `_action_counts`.
use worshiptool_churchtools.Prelude.{
  ℕ, ◌≡◌, refl, Bool, true, false, not, Option, none, some, List, [], ◌∷◌, if◌then◌else◌, ◌&&◌,
  ◌||◌, is_nil, any, all, count_if, arith, Dict, get,
}
use worshiptool_churchtools.Sync.Models.{ActionStatus, EventPlanStatus, PlannedAction, RunStatus}
use worshiptool_churchtools.RunStore.State.{ActionRow}

pub data ResultStatus : Type 0 where
  planned verified skipped failed : ResultStatus

pub record ActionCounts : Type 0 where
  pub planned : ℕ
  pub applied : ℕ
  pub verified : ℕ
  pub failed : ℕ
  pub skipped : ℕ

abbrev pub row_of : Option ActionRow → List ActionRow → List ActionRow
row_of none rows = rows
row_of (some row) rows = row ∷ rows

-- `_rows_for_actions`
unfoldable pub rows_for_actions : List PlannedAction → Dict ActionRow → List ActionRow
rows_for_actions [] row_by_id = []
rows_for_actions (action ∷ actions) row_by_id =
    row_of (get action.id row_by_id) (rows_for_actions actions row_by_id)

abbrev pub is_planned : ActionRow → Bool
is_planned row = elim row.status [ ActionStatus.planned ↦ true | _ ↦ false ]

abbrev pub is_applied : ActionRow → Bool
is_applied row = elim row.status [ ActionStatus.applied ↦ true | _ ↦ false ]

abbrev pub is_verified : ActionRow → Bool
is_verified row = elim row.status [ ActionStatus.verified ↦ true | _ ↦ false ]

abbrev pub is_failed : ActionRow → Bool
is_failed row = elim row.status [ ActionStatus.failed ↦ true | _ ↦ false ]

abbrev pub is_skipped : ActionRow → Bool
is_skipped row = elim row.status [ ActionStatus.skipped ↦ true | _ ↦ false ]

-- `_action_counts`
unfoldable pub action_counts : List ActionRow → ActionCounts
action_counts rows = record {
  planned = count_if is_planned rows;
  applied = count_if is_applied rows;
  verified = count_if is_verified rows;
  failed = count_if is_failed rows;
  skipped = count_if is_skipped rows;
}

abbrev pub is_unfinished : ActionRow → Bool
is_unfinished row = is_failed row || is_skipped row

abbrev pub is_written : ActionRow → Bool
is_written row = is_applied row || is_verified row

-- The last tests of `_event_status`, by the status of the run; those on a run that is canceled
-- return at once.
unfoldable pub status_by_run : RunStatus → List ActionRow → ResultStatus
status_by_run RunStatus.canceled rows =
    if any rows is_written then ResultStatus.failed else ResultStatus.skipped
status_by_run RunStatus.succeeded rows =
    if is_nil rows then ResultStatus.verified else ResultStatus.planned
status_by_run RunStatus.failed rows =
    if not (is_nil rows) && all rows is_planned then ResultStatus.failed else ResultStatus.planned
status_by_run RunStatus.partial rows =
    if not (is_nil rows) && all rows is_planned then ResultStatus.failed else ResultStatus.planned
status_by_run RunStatus.queued rows = ResultStatus.planned
status_by_run RunStatus.running rows = ResultStatus.planned
status_by_run RunStatus.skipped rows = ResultStatus.planned

unfoldable pub status_of_ready : RunStatus → Bool → List ActionRow → ResultStatus
unfolding status_by_run
status_of_ready status dry_run rows =
    if any rows is_unfinished
    then ResultStatus.failed
    else if dry_run
    then ResultStatus.planned
    else if not (is_nil rows) && all rows is_verified
    then ResultStatus.verified
    else status_by_run status rows

-- `_event_status`, with the run's status and its mark of a dry run
unfoldable pub event_status : RunStatus → Bool → EventPlanStatus → List ActionRow → ResultStatus
unfolding status_of_ready
event_status status dry_run EventPlanStatus.failed rows = ResultStatus.failed
event_status status dry_run EventPlanStatus.ambiguous rows = ResultStatus.failed
event_status status dry_run EventPlanStatus.skipped rows = ResultStatus.skipped
event_status status dry_run EventPlanStatus.ready rows = status_of_ready status dry_run rows

-- What an event that is shown as verified stands on.
pub record IsVerifiedEvent (status : RunStatus) (dry_run : Bool) (event : EventPlanStatus)
    (rows : List ActionRow) : Type 0 where
  pub planned_ready : event ≡ EventPlanStatus.ready
  pub not_dry : dry_run ≡ false
  pub rows_verified : all rows is_verified ≡ true
  pub empty_succeeded : is_nil rows ≡ true → status ≡ RunStatus.succeeded

verified_by_run :
    (status : RunStatus) (rows : List ActionRow)
    → status_by_run status rows ≡ ResultStatus.verified
    → (status ≡ RunStatus.succeeded) × (is_nil rows ≡ true)
unfolding status_by_run
verified_by_run RunStatus.canceled rows h = (ground (arith, h), ground (arith, h))
verified_by_run RunStatus.succeeded rows h = (refl, ground (arith, h))
verified_by_run RunStatus.failed rows h = (ground (arith, h), ground (arith, h))
verified_by_run RunStatus.partial rows h = (ground (arith, h), ground (arith, h))
verified_by_run RunStatus.queued rows h = (ground (arith, h), ground (arith, h))
verified_by_run RunStatus.running rows h = (ground (arith, h), ground (arith, h))
verified_by_run RunStatus.skipped rows h = (ground (arith, h), ground (arith, h))

-- An event is shown as verified only where its plan was ready, the run was no dry run and all its
-- rows are verified, and without a row only where the run succeeded.
pub event_status-IsVerifiedEvent :
    (status : RunStatus) (dry_run : Bool) (event : EventPlanStatus) (rows : List ActionRow)
    → event_status status dry_run event rows ≡ ResultStatus.verified
    → IsVerifiedEvent status dry_run event rows
unfolding event_status status_of_ready
event_status-IsVerifiedEvent status dry_run EventPlanStatus.failed rows h = cc
event_status-IsVerifiedEvent status dry_run EventPlanStatus.ambiguous rows h = cc
event_status-IsVerifiedEvent status dry_run EventPlanStatus.skipped rows h = cc
event_status-IsVerifiedEvent status dry_run EventPlanStatus.ready rows h = record {
  planned_ready = refl;
  not_dry = ground (arith, h);
  rows_verified = ground (arith, h, verified_by_run status rows);
  empty_succeeded = λ k. ground (arith, h, k, verified_by_run status rows);
}
