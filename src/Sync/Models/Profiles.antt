-- ===== src/Sync/Models/Profiles.antt =====
-- Profiles, and what a run is claimed with.
use worshiptool_churchtools.Prelude.{ℕ, String, Bool, Option, List, not, ◌&&◌, ◌||◌, leb, is_some}

pub data MatchMode : Type 0 where
  exact_time date_only : MatchMode

pub data SyncMode : Type 0 where
  source_changes_only enforce_source : SyncMode

pub data AnchorRelation : Type 0 where
  before at after : AnchorRelation

pub data MultipleAnchorPolicy : Type 0 where
  fail first : MultipleAnchorPolicy

pub record EventSelector : Type 0 where
  pub name_contains : Option String
  pub name_regex : Option String
  pub campus_ids : List String
  pub calendar_ids : List String

pub record AgendaAnchor : Type 0 where
  pub item_id : Option String
  pub item_type : Option String
  pub title : Option String

pub record PlacementRule : Type 0 where
  pub id : String
  pub anchor : AgendaAnchor
  pub relation : AnchorRelation
  pub song_start : ℕ
  pub song_end : Option ℕ
  pub multiple_anchor_policy : MultipleAnchorPolicy

pub record ProfileConfig : Type 0 where
  pub id : String
  pub revision : ℕ
  pub source_timezone : String
  pub target_timezone : String
  pub sync_mode : SyncMode
  pub match_mode : MatchMode
  pub selectors : List EventSelector
  pub placements : List PlacementRule
  pub auto_create_songs : Bool
  pub song_category_id : Option ℕ
  pub arrangement_name : String
  -- JSON values, as texts
  pub agenda_item_defaults : List (String × String)
  pub lookahead_days : ℕ

-- The part of `fingerprint` that planning reads.
pub record Ownership : Type 0 where
  pub profile_id : String
  pub target_event_id : String
  pub agenda_item_id : String
  pub source_key : String
  pub placement_id : String
  pub agenda_fingerprint : Option String
  pub target_song_id : Option String
  pub arrangement_id : Option String

-- `ProfileConfig.__post_init__`, for revision and days that are not negative; `valid_zone` says that
-- `ZoneInfo` knows a name, and `name_length` is `len` of the arrangement name.
unfoldable pub is_valid_profile : (String → Bool) → (String → ℕ) → ProfileConfig → Bool
is_valid_profile valid_zone name_length profile =
    leb 1 profile.revision
    && valid_zone profile.source_timezone
    && valid_zone profile.target_timezone
    && leb 1 profile.lookahead_days
    && leb profile.lookahead_days 366
    && (not profile.auto_create_songs || is_some profile.song_category_id)
    && leb 1 (name_length profile.arrangement_name)
    && leb (name_length profile.arrangement_name) 50

pub record EventSyncCheckpoint : Type 0 where
  pub source_event_id : String
  pub target_event_id : String
  pub source_fingerprint : String
  pub config_fingerprint : String

pub record RunSpecification : Type 0 where
  pub run_id : String
  pub workspace_id : String
  pub source_connection_id : String
  pub target_connection_id : String
  pub profile : ProfileConfig
  pub dry_run : Bool
