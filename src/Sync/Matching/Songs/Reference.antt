-- ===== src/Sync/Matching/Songs/Reference.antt =====
-- The index against a search through the songs.
use worshiptool_churchtools.Prelude.{String, Bool, List, ◌==◌, if◌then◌else◌, select}
use worshiptool_churchtools.Sync.Models.{SourceSong, TargetSong}
use worshiptool_churchtools.Sync.Platform.{Platform}
use worshiptool_churchtools.Sync.Matching.Text.{normalize_text, normalize_ccli}
use worshiptool_churchtools.Sync.Matching.Songs.{
  SongMatch, pair_eq, name_key, compatible, choose_named, choose_numbered,
}

module _ (p : Platform) where
  abbrev numbered : String → TargetSong → Bool
  numbered number song = normalize_ccli p song.ccli == number

  abbrev named : String × String → TargetSong → Bool
  named key song = pair_eq (name_key p song) key

  -- The match by a search through the songs, with no index.
  abbrev pub match_by_search : SourceSong → List TargetSong → SongMatch
  match_by_search source songs =
      let number = normalize_ccli p source.ccli in
      let same_name =
        select (named (normalize_text p source.name, normalize_text p source.artist)) songs in
      if number == ""
      then choose_named p same_name
      else choose_numbered p (select (numbered number) songs)
          (choose_named p (select (compatible p number) same_name))
