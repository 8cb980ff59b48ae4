-- ===== src/Sync/Fingerprints.antt =====
-- The fingerprints of backend/app/sync/fingerprints.py: the documents that are hashed. The canonical
-- JSON of a document, its order and SHA-256 are the outside's.
use worshiptool_churchtools.Prelude.{ℕ, String, Bool, Option, List, map, select, sort, ◌==◌}
use worshiptool_churchtools.Sync.Models.{
  SourceEvent, SourceSong, ProfileConfig, MatchMode, EventSelector, PlacementRule,
}
use worshiptool_churchtools.Sync.Platform.{Platform}
use worshiptool_churchtools.Sync.Matching.Text.{normalize_text, normalize_ccli}

pub record SongMetadata : Type 0 where
  pub name : String
  pub artist : String
  pub ccli : String

pub record SongDocument : Type 0 where
  pub id : String
  pub metadata : List SongMetadata

pub record ConfigDocument : Type 0 where
  pub source_connection_id : String
  pub target_connection_id : String
  pub source_timezone : String
  pub target_timezone : String
  pub match_mode : MatchMode
  pub selectors : List EventSelector
  pub placements : List PlacementRule
  pub auto_create_songs : Bool
  pub song_category_id : Option ℕ
  pub arrangement_name : String
  pub agenda_item_defaults : List (String × String)

-- `_canonical_json` as an order, and `_sha256` of the two documents.
pub record Digests : Type 0 where
  pub metadata_leb : SongMetadata → SongMetadata → Bool
  pub songs_digest : List SongDocument → String
  pub config_digest : ConfigDocument → String

-- `candidates.get(song_id, ())`
abbrev pub candidates_of : String → List SourceSong → List SourceSong
candidates_of id songs = select (λ (song : SourceSong). song.id == id) songs

module _ (p : Platform) (digests : Digests) where
  abbrev pub metadata_of : SourceSong → SongMetadata
  metadata_of song = record {
    name = normalize_text p song.name;
    artist = normalize_text p song.artist;
    ccli = normalize_ccli p song.ccli;
  }

  unfoldable pub song_document : List SourceSong → String → SongDocument
  song_document songs id = record {
    id = id;
    metadata = sort digests.metadata_leb (map metadata_of (candidates_of id songs));
  }

  -- `source_event_fingerprint`
  unfoldable pub source_event_fingerprint : SourceEvent → List SourceSong → String
  source_event_fingerprint event songs =
      digests.songs_digest (map (song_document songs) event.song_ids)

-- `sync_config_fingerprint`
unfoldable pub sync_config_fingerprint : Digests → ProfileConfig → String → String → String
sync_config_fingerprint digests profile source_connection_id target_connection_id =
    digests.config_digest (record {
      source_connection_id = source_connection_id;
      target_connection_id = target_connection_id;
      source_timezone = profile.source_timezone;
      target_timezone = profile.target_timezone;
      match_mode = profile.match_mode;
      selectors = profile.selectors;
      placements = profile.placements;
      auto_create_songs = profile.auto_create_songs;
      song_category_id = profile.song_category_id;
      arrangement_name = profile.arrangement_name;
      agenda_item_defaults = profile.agenda_item_defaults;
    })
