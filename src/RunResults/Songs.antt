-- ===== src/RunResults/Songs.antt =====
-- `_verified_created_songs`, and the songs of an event.
use worshiptool_churchtools.Prelude.{
  String, Bool, true, false, Option, none, some, List, [], ◌∷◌, ◌++◌, if◌then◌else◌, any, member,
  ◌==◌, Dict, get, put,
}
use worshiptool_churchtools.Sync.Models.{ActionKind, PlannedAction}
use worshiptool_churchtools.Sync.Planner.Factory.{present}
use worshiptool_churchtools.RunStore.State.{ActionRow}
use worshiptool_churchtools.RunResults.Status.{is_verified}

pub record CreatedSong : Type 0 where
  pub action_id : String
  pub source_song_id : Option String
  pub target_song_id : Option String
  pub name : String
  pub author : String
  pub ccli : Option String

-- `value or default`
abbrev pub or_text : Option String → String → String
or_text none default = default
or_text (some value) default = if value == "" then default else value

-- `str(value) if value else None`
abbrev pub if_text : Option String → Option String
if_text none = none
if_text (some value) = if value == "" then none else some value

unfoldable pub created_song : PlannedAction → ActionRow → CreatedSong × List String
created_song action row = (
  record {
    action_id = action.id;
    source_song_id = action.payload.source_song_id;
    target_song_id = row.result.song_id;
    name = or_text action.payload.name "Unbenannter Song";
    author = or_text action.payload.author "";
    ccli = if_text action.payload.ccli;
  },
  present action.payload.song_resource_key ++ present action.payload.arrangement_resource_key,
)

abbrev pub Songs : Type 0
Songs = Dict (CreatedSong × List String)

abbrev pub add_song : PlannedAction → Option ActionRow → Songs → Songs
add_song action none songs = songs
add_song action (some row) songs =
    if is_verified row then put action.id (created_song action row) songs else songs

abbrev pub is_creation : PlannedAction → Bool
is_creation action = elim action.kind [ ActionKind.create_song ↦ true | _ ↦ false ]

-- `_verified_created_songs`, the loop
unfoldable pub verified_created_songs : List PlannedAction → Dict ActionRow → Songs → Songs
unfolding created_song
verified_created_songs [] row_by_id songs = songs
verified_created_songs (action ∷ actions) row_by_id songs =
    verified_created_songs actions row_by_id
      (if is_creation action then add_song action (get action.id row_by_id) songs else songs)

abbrev pub shares : List String → List String → Bool
shares dependencies keys = any keys (λ key. member key dependencies)

-- `event_songs`, for the dependencies of the actions of the event
unfoldable pub songs_of : List String → Songs → List CreatedSong
songs_of dependencies [] = []
songs_of dependencies ((id, (song, keys)) ∷ songs) =
    let rest = songs_of dependencies songs in if shares dependencies keys then song ∷ rest else rest
