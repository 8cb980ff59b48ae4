-- ===== src/Tests/Planner.antt =====
-- Planning a service with one song.
use worshiptool_churchtools.Sync.Matching.Text.{normalize_ccli, normalize_text}
use worshiptool_churchtools.Sync.Matching.Table.{values_at, append_to}
use worshiptool_churchtools.Sync.Matching.Songs.{
  index_from, choose_numbered, index_song, match, build_index, choose_named,
}
use worshiptool_churchtools.Sync.Planner.Factory.{
  dependencies, keyed, make, show, produced_resource_keys,
}
use worshiptool_churchtools.Sync.Matching.Events.{
  accepted, withdraw, target_counts, match_events, validate_selector, keep, candidate_events,
  match_source, decide, selector_matches, withdraw_reused, add_candidates, accepts, selector_errors,
  index_target_events, event_time_matches, matched_sources, collect, verdict, any_selector,
}
use worshiptool_churchtools.Prelude.{◌≤◌, ◌≡◌, refl, none, [], ◌∷◌, count_if, All}
use worshiptool_churchtools.Sync.Errors.{Result, ok, raise}
use worshiptool_churchtools.Sync.Models.{SyncPlan, sorted_items}
use worshiptool_churchtools.Sync.Planner.Songs.{
  ready_song_ids, add_outcome, viable_song_ids, select_arrangement, distinct, required_ids,
  plan_songs, plan_song_resources, outcome,
}
use worshiptool_churchtools.Sync.Planner.Placements.{
  Setting, Draft, insert_song, place_song, resource_at, take_slot, advance, index_of, owner_of,
  place_songs, skip_reserved, anchor_matches, range_from, place_in, slice,
}
use worshiptool_churchtools.Sync.Planner.Agenda.{
  plan_placements, release_all, place_at_anchor, fingerprint_matches, place, place_anchored,
  release, place_all, item_of,
}
use worshiptool_churchtools.Sync.Planner.Agenda.Safety.{plan_placements-IsPermitted}
use worshiptool_churchtools.Sync.Planner.Agenda.Permitted.{IsPermitted}
use worshiptool_churchtools.Sync.Planner.Events.{
  PlanInput, plan, setting, song_plan, plan_agenda, plan_target, of_draft, fingerprint_at,
  planned_matches, plan_event, issues_of, plan_ready, agenda_fingerprint, plan_events,
  skip_unchanged, needed_resources, dependencies_of,
}
use worshiptool_churchtools.Sync.Planner.Events.Verdicts.{IsSettled, writes_to}
use worshiptool_churchtools.Sync.Planner.Events.Writes.{plan-IsSettled, plan-writes_once}
use worshiptool_churchtools.Tests.Samples.{
  platform, profile, source_event, source_events, target_event, target_events, source_song,
  target_song, agenda,
}

abbrev input : PlanInput
input = record {
  run_id = "r1";
  profile = profile;
  created_at = 50;
  source_events = source_events;
  target_events = target_events;
  source_songs = source_song ∷ [];
  target_songs = target_song ∷ [];
  agendas = ("t1", agenda) ∷ [];
  ownerships = [];
  event_fingerprints = [];
  config_fingerprint = none;
  unchanged_event_keys = [];
}

abbrev planned : Result SyncPlan → SyncPlan
planned (ok r) = r
planned (raise e) = record {
  run_id = "";
  profile_id = "";
  profile_revision = 0;
  created_at = 0;
  preparation_actions = [];
  events = [];
}

sample_is_planned : plan platform input ≡ ok (planned (plan platform input))
unfolding accepted accepts add_candidates add_outcome advance agenda_fingerprint anchor_matches
    any_selector append_to build_index candidate_events choose_named choose_numbered collect decide
    dependencies dependencies_of distinct event_time_matches fingerprint_at fingerprint_matches
    index_from index_of index_song index_target_events insert_song issues_of item_of keep keyed make
    match match_events match_source matched_sources needed_resources normalize_ccli normalize_text
    of_draft outcome owner_of place place_all place_anchored place_at_anchor place_in place_song
    place_songs plan plan_agenda plan_event plan_events plan_placements plan_ready
    plan_song_resources plan_songs plan_target planned_matches produced_resource_keys range_from
    ready_song_ids release release_all required_ids resource_at select_arrangement selector_errors
    selector_matches show skip_reserved skip_unchanged slice song_plan sorted_items take_slot
    target_counts validate_selector values_at verdict viable_song_ids withdraw withdraw_reused
sample_is_planned = refl

plan-IsSettled_example : All IsSettled (planned (plan platform input)).events
plan-IsSettled_example =
    plan-IsSettled platform input (planned (plan platform input)) sample_is_planned

plan-writes_once_example : count_if (writes_to "t1") (planned (plan platform input)).events ≤ 1
plan-writes_once_example =
    plan-writes_once platform input (planned (plan platform input)) "t1" sample_is_planned

abbrev opening : Setting
opening =
    setting platform input (song_plan platform input) source_event (target_event "t1" 100) agenda

abbrev drafted : Result Draft → Draft
drafted (ok d) = d
drafted (raise e) = record {
  actions = [];
  issues = [];
  used = [];
  reserved = [];
  desired = [];
  ordinal = 0;
}

sample_is_drafted : plan_placements opening 0 ≡ ok (drafted (plan_placements opening 0))
unfolding accepted accepts add_candidates add_outcome advance agenda_fingerprint anchor_matches
    any_selector append_to build_index candidate_events choose_named choose_numbered collect decide
    dependencies dependencies_of distinct event_time_matches fingerprint_at fingerprint_matches
    index_from index_of index_song index_target_events insert_song issues_of item_of keep keyed make
    match match_events match_source matched_sources needed_resources normalize_ccli normalize_text
    of_draft outcome owner_of place place_all place_anchored place_at_anchor place_in place_song
    place_songs plan plan_agenda plan_event plan_events plan_placements plan_ready
    plan_song_resources plan_songs plan_target planned_matches produced_resource_keys range_from
    ready_song_ids release release_all required_ids resource_at select_arrangement selector_errors
    selector_matches show skip_reserved skip_unchanged slice song_plan sorted_items take_slot
    target_counts validate_selector values_at verdict viable_song_ids withdraw withdraw_reused
sample_is_drafted = refl

plan_placements_example : All (IsPermitted opening) (drafted (plan_placements opening 0)).actions
plan_placements_example =
    plan_placements-IsPermitted opening 0 (drafted (plan_placements opening 0)) sample_is_drafted
