-- ===== src/Sync/Matching/Songs.antt =====
-- `SongIndex`: the lookup tables and the match of one source song.
pub mod Reference
use worshiptool_churchtools.Prelude.{
  String, Bool, true, false, not, Option, none, some, List, [], ◌∷◌, ◌++◌, ◌==◌, ◌&&◌, ◌||◌,
  if◌then◌else◌, select,
}
use worshiptool_churchtools.Sync.Models.{SourceSong, TargetSong}
use worshiptool_churchtools.Sync.Platform.{Platform}
use worshiptool_churchtools.Sync.Matching.Table.{Table, append_to, values_at}
use worshiptool_churchtools.Sync.Matching.Text.{normalize_text, normalize_ccli}

pub data Strategy : Type 0 where
  ccli name_author : Strategy

pub record SongMatch : Type 0 where
  pub target : Option TargetSong
  pub ambiguous : Bool
  pub strategy : Option Strategy

abbrev pub pair_eq : String × String → String × String → Bool
pair_eq (a, b) (c, d) = a == c && b == d

pub record SongIndex : Type 0 where
  pub by_ccli : Table String TargetSong
  pub by_name_author : Table (String × String) TargetSong

module _ (p : Platform) where
  abbrev pub name_key : TargetSong → String × String
  name_key song = (normalize_text p song.name, normalize_text p song.author)

  -- The body of the loop of `__init__`.
  unfoldable pub index_song : SongIndex → TargetSong → SongIndex
  index_song index song = record {
    by_ccli =
        (let number = normalize_ccli p song.ccli in
          if number == "" then index.by_ccli else append_to ◌==◌ number song index.by_ccli);
    by_name_author = append_to pair_eq (name_key song) song index.by_name_author;
  }

  unfoldable pub index_from : SongIndex → List TargetSong → SongIndex
  unfolding index_song
  index_from index [] = index
  index_from index (song ∷ songs) = index_from (index_song index song) songs

  unfoldable pub build_index : List TargetSong → SongIndex
  unfolding index_from
  build_index songs = index_from (record { by_ccli = []; by_name_author = [] }) songs

  -- A song with no CCLI number, or with this one.
  abbrev pub compatible : String → TargetSong → Bool
  compatible number target =
      normalize_ccli p target.ccli == "" || normalize_ccli p target.ccli == number

  -- The choice from the songs of one name and author.
  unfoldable pub choose_named : List TargetSong → SongMatch
  choose_named [] = record { target = none; ambiguous = false; strategy = none }
  choose_named (song ∷ []) = record {
    target = some song;
    ambiguous = false;
    strategy = some Strategy.name_author;
  }
  choose_named (song ∷ other ∷ songs) = record {
    target = none;
    ambiguous = true;
    strategy = some Strategy.name_author;
  }

  -- The choice from the songs of one CCLI number; without any, the fallback.
  unfoldable pub choose_numbered : List TargetSong → SongMatch → SongMatch
  choose_numbered [] fallback = fallback
  choose_numbered (song ∷ []) fallback = record {
    target = some song;
    ambiguous = false;
    strategy = some Strategy.ccli;
  }
  choose_numbered (song ∷ other ∷ songs) fallback = record {
    target = none;
    ambiguous = true;
    strategy = some Strategy.ccli;
  }

  -- `SongIndex.match`
  unfoldable pub match : SongIndex → SourceSong → SongMatch
  unfolding choose_named choose_numbered
  match index source =
      let number = normalize_ccli p source.ccli in
      let named =
        values_at pair_eq (normalize_text p source.name, normalize_text p source.artist)
          index.by_name_author in
      if number == ""
      then choose_named named
      else choose_numbered (values_at ◌==◌ number index.by_ccli)
          (choose_named (select (compatible number) named))

  -- `match_song`
  unfoldable pub match_song : SourceSong → List TargetSong → SongMatch
  unfolding match build_index
  match_song source songs = match (build_index songs) source
