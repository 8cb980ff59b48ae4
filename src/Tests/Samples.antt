-- ===== src/Tests/Samples.antt =====
-- A platform, a profile and the records of a service with one song.
use Prim.Native.String
use worshiptool_churchtools.Prelude.{ℕ, String, true, false, none, some, List, [], ◌∷◌, map}
use worshiptool_churchtools.Sync.Models.{
  SourceEvent, TargetEvent, SourceSong, TargetSong, Arrangement, AgendaItem, Agenda, ProfileConfig,
  PlacementRule, MatchMode, SyncMode, AnchorRelation, MultipleAnchorPolicy, ActionKind,
  PlannedAction, EventPlan, EventPlanStatus, SyncPlan, empty_payload,
}
use worshiptool_churchtools.Sync.Platform.{Platform}

abbrev digest : List String → String
digest [] = ""
digest (part ∷ parts) = String.◌++◌ part (String.◌++◌ ":" (digest parts))

abbrev pub platform : Platform
platform = record {
  nfkc = λ s. s;
  casefold = λ s. s;
  upper = λ s. s;
  is_alnum = λ c. true;
  local_date = λ zone at. at;
  valid_zone = λ zone. true;
  text_length = λ s. 1;
  has_regex = true;
  regex_compiles = λ s. true;
  regex_search = λ pattern name. some true;
  stable_digest = digest;
  agenda_digest = λ items. digest (map (λ (i : AgendaItem). i.id) items);
  plan_digest = λ plan. plan.run_id;
}

abbrev pub rule : PlacementRule
rule = record {
  id = "opening";
  anchor = record { item_id = none; item_type = none; title = some "Lobpreis" };
  relation = AnchorRelation.after;
  song_start = 0;
  song_end = none;
  multiple_anchor_policy = MultipleAnchorPolicy.fail;
}

abbrev pub profile : ProfileConfig
profile = record {
  id = "p1";
  revision = 1;
  source_timezone = "Europe/Berlin";
  target_timezone = "Europe/Berlin";
  sync_mode = SyncMode.enforce_source;
  match_mode = MatchMode.exact_time;
  selectors =
      record {
        name_contains = some "Gottesdienst";
        name_regex = none;
        campus_ids = [];
        calendar_ids = "c1" ∷ [];
      }
      ∷ [];
  placements = rule ∷ [];
  auto_create_songs = false;
  song_category_id = none;
  arrangement_name = "Standard";
  agenda_item_defaults = [];
  lookahead_days = 14;
}

abbrev pub source_event : SourceEvent
source_event = record { id = "s1"; name = "Sonntag"; starts_at = 100 ∷ []; song_ids = "a" ∷ [] }

abbrev pub other_event : SourceEvent
other_event = record { id = "s2"; name = "Abend"; starts_at = 200 ∷ []; song_ids = "a" ∷ [] }

abbrev pub target_event : String → ℕ → TargetEvent
target_event id at = record {
  id = id;
  name = "Gottesdienst";
  starts_at = at;
  campus_name = none;
  campus_id = none;
  calendar_id = some "c1";
}

abbrev pub source_events : List SourceEvent
source_events = other_event ∷ source_event ∷ []

abbrev pub target_events : List TargetEvent
target_events = target_event "t1" 100 ∷ target_event "t2" 300 ∷ []

abbrev pub source_song : SourceSong
source_song = record { id = "a"; name = "Amazing Grace"; artist = "Newton"; ccli = some "22025" }

abbrev pub arrangement : Arrangement
arrangement = record { id = "ar1"; name = "Standard"; is_default = true }

abbrev pub target_song : TargetSong
target_song = record {
  id = "sg1";
  name = "Amazing Grace";
  author = "Newton";
  ccli = some "22025";
  arrangements = arrangement ∷ [];
}

abbrev pub heading : AgendaItem
heading = record {
  id = "i1";
  position = 1;
  type = "text";
  title = some "Lobpreis";
  song_id = none;
  arrangement_id = none;
}

abbrev pub agenda : Agenda
agenda = record { event_id = "t1"; items = heading ∷ [] }

abbrev pub insertion : PlannedAction
insertion = record {
  id = "a1";
  ordinal = 0;
  kind = ActionKind.insert_item;
  payload = record empty_payload {
    target_event_id = some "t1";
    target_song_id = some "sg1";
    arrangement_id = some "ar1";
    after_item_id = some "i1";
    resource_key = some "agenda_item:a1";
    profile_id = some "p1";
    source_key = some "k1";
    placement_id = some "opening";
  };
  event_plan_id = some "e1";
  dependencies = [];
}

abbrev pub event : EventPlan
event = record {
  id = "e1";
  source_event_id = "s1";
  target_event_id = some "t1";
  status = EventPlanStatus.ready;
  source_event_name = none;
  source_event_starts_at = none;
  target_event_name = none;
  target_event_starts_at = none;
  initial_agenda_fingerprint = some "i1:";
  source_fingerprint = none;
  config_fingerprint = none;
  actions = insertion ∷ [];
  issues = [];
}

abbrev pub sample_plan : SyncPlan
sample_plan = record {
  run_id = "r1";
  profile_id = "p1";
  profile_revision = 1;
  created_at = 50;
  preparation_actions = [];
  events = event ∷ [];
}
