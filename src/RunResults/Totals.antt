-- ===== src/RunResults/Totals.antt =====
-- The totals of a result.
use worshiptool_churchtools.Prelude.{
  ℕ, ◌+◌, ◌≤◌, ◌≡◌, refl, sym, ◌∙◌, Bool, true, false, List, [], ◌∷◌, map, length, count_if, arith,
  Dict, get, Option, none, some, is_some, String, Option-cases, inl, inr,
}
use worshiptool_churchtools.Sync.Models.{ActionStatus, EventPlan, PlannedAction, SyncPlan}
use worshiptool_churchtools.RunStore.State.{ActionRow, Run, RunError}
use worshiptool_churchtools.RunResults.Status.{
  ActionCounts, ResultStatus, action_counts, rows_for_actions, is_planned, is_applied, is_verified,
  is_failed, is_skipped,
}
use worshiptool_churchtools.RunResults.Result.{
  RunEventResult, SyncRunResult, build_run_result, build_by, event_result, summed,
  synthetic_results, synthetic_by, is_planned_result, is_verified_result, is_skipped_result,
  is_failed_result,
}

abbrev pub count_total : ActionCounts → ℕ
count_total c = c.planned + c.applied + c.verified + c.failed + c.skipped

counted_by :
    (status : ActionStatus) (row : ActionRow) (rows : List ActionRow)
    → row.status ≡ status
    → count_total (action_counts rows) ≡ length rows
    → count_total (action_counts (row ∷ rows)) ≡ length (row ∷ rows)
unfolding action_counts
counted_by ActionStatus.planned row rows e h = rw e (ground (arith, h))
counted_by ActionStatus.applied row rows e h = rw e (ground (arith, h))
counted_by ActionStatus.verified row rows e h = rw e (ground (arith, h))
counted_by ActionStatus.failed row rows e h = rw e (ground (arith, h))
counted_by ActionStatus.skipped row rows e h = rw e (ground (arith, h))

counted : (rows : List ActionRow) → count_total (action_counts rows) ≡ length rows
unfolding action_counts
counted [] = omega arith
counted (row ∷ rows) = counted_by row.status row rows refl (counted rows)

abbrev pub same_status : ActionStatus → ActionStatus → Bool
same_status ActionStatus.planned ActionStatus.planned = true
same_status ActionStatus.applied ActionStatus.applied = true
same_status ActionStatus.verified ActionStatus.verified = true
same_status ActionStatus.failed ActionStatus.failed = true
same_status ActionStatus.skipped ActionStatus.skipped = true
same_status _ _ = false

-- The action has a row with the status.
abbrev pub row_has : ActionStatus → Option ActionRow → Bool
row_has status none = false
row_has status (some row) = same_status status row.status

abbrev pub count_in : ActionStatus → ActionCounts → ℕ
count_in ActionStatus.planned c = c.planned
count_in ActionStatus.applied c = c.applied
count_in ActionStatus.verified c = c.verified
count_in ActionStatus.failed c = c.failed
count_in ActionStatus.skipped c = c.skipped

-- Counts and a total are those of the actions that have a row.
pub record IsTally (actions : List PlannedAction) (row_by_id : Dict ActionRow)
    (counts : ActionCounts) (total : ℕ) : Type 0 where
  pub each :
      (status : ActionStatus)
      → count_in status counts
        ≡ count_if (λ (a : PlannedAction). row_has status (get a.id row_by_id)) actions
  pub all_rows : total ≡ count_if (λ (a : PlannedAction). is_some (get a.id row_by_id)) actions
  pub sum : count_total counts ≡ total

tally_by :
    (test : ActionRow → Bool) (has : Option ActionRow → Bool) (actions : List PlannedAction)
    (row_by_id : Dict ActionRow)
    → has none ≡ false
    → ((row : ActionRow) → has (some row) ≡ test row)
    → count_if test (rows_for_actions actions row_by_id)
      ≡ count_if (λ (a : PlannedAction). has (get a.id row_by_id)) actions
unfolding rows_for_actions
tally_by test has [] row_by_id absent present = refl
tally_by test has (a ∷ actions) row_by_id absent present =
    elim (Option-cases (get a.id row_by_id)) [
      | inl e ↦ rw (e, absent) (tally_by test has actions row_by_id absent present)
      | inr (row, e) ↦
          ground (arith, e, present row, tally_by test has actions row_by_id absent present)
    ]

length-count_if : (rows : List ActionRow) → count_if (λ (row : ActionRow). true) rows ≡ length rows
length-count_if [] = refl
length-count_if (row ∷ rows) = ground (arith, length-count_if rows)

tally_of :
    (status : ActionStatus) (actions : List PlannedAction) (row_by_id : Dict ActionRow)
    → count_in status (action_counts (rows_for_actions actions row_by_id))
      ≡ count_if (λ (a : PlannedAction). row_has status (get a.id row_by_id)) actions
unfolding action_counts
tally_of ActionStatus.planned actions d =
    tally_by is_planned (row_has ActionStatus.planned) actions d refl (λ row. ground arith)
tally_of ActionStatus.applied actions d =
    tally_by is_applied (row_has ActionStatus.applied) actions d refl (λ row. ground arith)
tally_of ActionStatus.verified actions d =
    tally_by is_verified (row_has ActionStatus.verified) actions d refl (λ row. ground arith)
tally_of ActionStatus.failed actions d =
    tally_by is_failed (row_has ActionStatus.failed) actions d refl (λ row. ground arith)
tally_of ActionStatus.skipped actions d =
    tally_by is_skipped (row_has ActionStatus.skipped) actions d refl (λ row. ground arith)

IsTally-rows :
    (actions : List PlannedAction) (row_by_id : Dict ActionRow)
    → IsTally actions row_by_id
        (action_counts (rows_for_actions actions row_by_id))
        (length (rows_for_actions actions row_by_id))
IsTally-rows actions row_by_id = record {
  each = λ status. tally_of status actions row_by_id;
  all_rows =
      sym (length-count_if (rows_for_actions actions row_by_id))
      ∙ tally_by (λ row. true) is_some actions row_by_id refl (λ row. refl);
  sum = counted (rows_for_actions actions row_by_id);
}

-- The results are those of the events, one for each and in their order.
abbrev pub AllTallied : Dict ActionRow → List EventPlan → List RunEventResult → Type 0
AllTallied row_by_id [] results = results ≡ []
AllTallied row_by_id (event ∷ events) [] = ⊥
AllTallied row_by_id (event ∷ events) (result ∷ results) =
    (result.id ≡ event.id)
    × IsTally event.actions row_by_id result.action_counts result.action_total
    × AllTallied row_by_id events results

-- The parts of a result follow the plan, if there is one; else at most one result stands for the run.
abbrev pub FollowsPlan : Dict ActionRow → Option (String × SyncPlan) → SyncRunResult → Type 0
FollowsPlan row_by_id none result =
    (length result.events ≤ 1) × (result.preparation_action_total ≡ 0)
FollowsPlan row_by_id (some (fingerprint, plan)) result =
    AllTallied row_by_id plan.events result.events
    × IsTally plan.preparation_actions row_by_id result.preparation_action_counts
        result.preparation_action_total

-- That the totals of a result are those of its events, and its events those of the plan.
pub record AddsUp (run : Run) (row_by_id : Dict ActionRow) (result : SyncRunResult) : Type 0 where
  pub summands : result.planned + result.verified + result.skipped + result.failed ≡ result.total
  pub listed : length result.events ≡ result.total
  pub follows : FollowsPlan row_by_id run.plan result

abbrev summands_total : List RunEventResult → ℕ
summands_total events =
    count_if is_planned_result events
    + count_if is_verified_result events
    + count_if is_skipped_result events
    + count_if is_failed_result events

summands_by :
    (event : RunEventResult) (status : ResultStatus) (events : List RunEventResult)
    → event.status ≡ status
    → summands_total events ≡ length events
    → summands_total (event ∷ events) ≡ length (event ∷ events)
summands_by event ResultStatus.planned events e h = rw e (ground (arith, h))
summands_by event ResultStatus.verified events e h = rw e (ground (arith, h))
summands_by event ResultStatus.skipped events e h = rw e (ground (arith, h))
summands_by event ResultStatus.failed events e h = rw e (ground (arith, h))

summands_of : (events : List RunEventResult) → summands_total events ≡ length events
summands_of [] = omega arith
summands_of (event ∷ events) = summands_by event event.status events refl (summands_of events)

AllTallied-map :
    (result_of : EventPlan → RunEventResult) (row_by_id : Dict ActionRow) (events : List EventPlan)
    → ((event : EventPlan)
        → ((result_of event).id ≡ event.id)
          × IsTally event.actions row_by_id
              (result_of event).action_counts
              (result_of event).action_total)
    → AllTallied row_by_id events (map result_of events)
AllTallied-map result_of row_by_id [] h = refl
AllTallied-map result_of row_by_id (event ∷ events) h =
    ((h event).0, (h event).1, AllTallied-map result_of row_by_id events h)

synthetic-short : (run : Run) (error : Option RunError) → length (synthetic_by run error) ≤ 1
synthetic-short run none = ground arith
synthetic-short run (some error) = omega arith

FollowsPlan-build_by :
    (run : Run) (row_by_id : Dict ActionRow) (plan : Option (String × SyncPlan))
    → FollowsPlan row_by_id plan (build_by run row_by_id plan)
unfolding build_by synthetic_results event_result summed
FollowsPlan-build_by run row_by_id none = (synthetic-short run run.error, refl)
FollowsPlan-build_by run row_by_id (some (fingerprint, plan)) = (
  AllTallied-map _ row_by_id plan.events (λ event. (refl, IsTally-rows event.actions row_by_id)),
  IsTally-rows plan.preparation_actions row_by_id,
)

summands-build_by :
    (run : Run) (row_by_id : Dict ActionRow) (plan : Option (String × SyncPlan))
    → ((build_by run row_by_id plan).planned
          + (build_by run row_by_id plan).verified
          + (build_by run row_by_id plan).skipped
          + (build_by run row_by_id plan).failed
        ≡ (build_by run row_by_id plan).total)
      × (length (build_by run row_by_id plan).events ≡ (build_by run row_by_id plan).total)
unfolding build_by summed
summands-build_by run row_by_id none = (summands_of (synthetic_results run), refl)
summands-build_by run row_by_id (some (fingerprint, plan)) = (summands_of _, refl)

-- The result of a run adds up: its planned, verified, skipped and failed events are all its events.
-- Where the run has a plan, there is one result for each event of the plan, in the plan's order and
-- with its id; the count of each status, of an event and of the preparation, is the number of its
-- actions that have a row with that status, and the total is the number of its actions that have a
-- row. Without a plan there is at most one result and no row of a preparation.
pub build_run_result-AddsUp :
    (run : Run) (row_by_id : Dict ActionRow) → AddsUp run row_by_id (build_run_result run row_by_id)
unfolding build_run_result
build_run_result-AddsUp run row_by_id = record {
  summands = (summands-build_by run row_by_id run.plan).0;
  listed = (summands-build_by run row_by_id run.plan).1;
  follows = FollowsPlan-build_by run row_by_id run.plan;
}
