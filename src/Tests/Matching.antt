-- ===== src/Tests/Matching.antt =====
-- Matching two services and a song.
use worshiptool_churchtools.Prelude.{◌≤◌, ◌≡◌, map, count_if}
use worshiptool_churchtools.Sync.Matching.Events.{EventMatch, match_events, matched_sources}
use worshiptool_churchtools.Sync.Matching.Events.Uniqueness.{
  targets_id, match_events_unique, match_events-sources,
}
use worshiptool_churchtools.Tests.Samples.{platform, profile, source_events, target_events}

match_events_unique_example :
    count_if (targets_id "t1") (match_events platform profile source_events target_events) ≤ 1
match_events_unique_example = match_events_unique platform profile source_events target_events "t1"

match_events-sources_example :
    map (λ (m : EventMatch). m.source) (match_events platform profile source_events target_events)
    ≡ matched_sources source_events
match_events-sources_example = match_events-sources platform profile source_events target_events
