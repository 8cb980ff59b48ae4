-- ===== src/Sync/Planner/Events/Writes.antt =====
-- What a plan promises of its events: which are written to, and how often.
use worshiptool_churchtools.Prelude.{◌≤◌, String, ◌≡◌, List, count_if, arith, All}
use worshiptool_churchtools.Sync.Errors.{Result, ok, raise}
use worshiptool_churchtools.Sync.Models.{EventPlan, SyncPlan}
use worshiptool_churchtools.Sync.Platform.{Platform}
use worshiptool_churchtools.Sync.Matching.Events.{EventMatch, match_events}
use worshiptool_churchtools.Sync.Matching.Events.Uniqueness.{targets_id, match_events_unique}
use worshiptool_churchtools.Sync.Matching.Events.Verdicts.{match_events-IsSound}
use worshiptool_churchtools.Sync.Planner.Events.{
  PlanInput, plan_events, planned_matches, song_plan, assemble, plan,
}
use worshiptool_churchtools.Sync.Planner.Events.Verdicts.{
  IsSettled, writes_to, FitAll, FitAll-plan_events, IsAimed-skipped, IsAimed-of_IsSound,
  targets-skipped,
}

module _ (p : Platform) (input : PlanInput) where
  abbrev matched : List EventMatch
  matched = match_events p input.profile input.source_events input.target_events

  -- What the plans of the matches say of an assembled plan.
  abbrev Settles : List EventMatch → Result SyncPlan → Type 0
  Settles ms (raise e) = Unit
  Settles ms (ok r) =
      All IsSettled r.events
      × ((id : String) → count_if (writes_to id) r.events ≤ count_if (targets_id id) ms)

  Settles-assemble :
      (ms : List EventMatch) (events : Result (List EventPlan))
      → FitAll p input (song_plan p input) ms events
      → Settles ms (assemble p input events)
  Settles-assemble ms (raise e) h = tt
  Settles-assemble ms (ok events) h = h

  plan-fits :
      (r : SyncPlan)
      → plan p input ≡ ok r
      → All IsSettled r.events
        × ((id : String)
            → count_if (writes_to id) r.events ≤ count_if (targets_id id) (planned_matches p input))
  unfolding plan planned_matches
  plan-fits r q =
      let settles =
        Settles-assemble (planned_matches p input)
          (plan_events p input (song_plan p input) (planned_matches p input)
            (song_plan p input).ordinal)
          (FitAll-plan_events p input (song_plan p input) (planned_matches p input)
            (song_plan p input).ordinal
            (IsAimed-skipped p input matched (
              IsAimed-of_IsSound p input matched
                (match_events-IsSound p input.profile input.target_events input.source_events)))) in
      (rw q at settles)

  -- Where planning returns a plan, an event of it that is not ready has no actions, and one that
  -- is ready has a target event and no issue that is an error.
  pub plan-IsSettled : (r : SyncPlan) → plan p input ≡ ok r → All IsSettled r.events
  plan-IsSettled r h = (plan-fits r h).0

  -- Where planning returns a plan, its ready events include at most one for each target event, so
  -- that no target is written to for two source events.
  pub plan-writes_once :
      (r : SyncPlan) (id : String) → plan p input ≡ ok r → count_if (writes_to id) r.events ≤ 1
  unfolding planned_matches
  plan-writes_once r id h = ground (
    arith,
    (plan-fits r h).1 id,
    targets-skipped p input id matched,
    match_events_unique p input.profile input.source_events input.target_events id,
  )
