-- ===== src/Sync/Planner/Factory.antt =====
-- `_ActionFactory`, `_SongResource` and the keys that planned resources are known by.
use Prim.Native.String
use worshiptool_churchtools.Prelude.{
  ℕ, zero, suc, ◌/◌, ◌%◌, String, Option, none, some, List, [], ◌∷◌, ◌++◌, if◌then◌else◌, nat_eq,
  ltb, ◌==◌,
}
use worshiptool_churchtools.Sync.Models.{SourceSong, ActionKind, Payload, PlannedAction}
use worshiptool_churchtools.Sync.Platform.{Platform}

digit : ℕ → String
digit d =
    if nat_eq d 0
    then "0"
    else if nat_eq d 1
    then "1"
    else if nat_eq d 2
    then "2"
    else if nat_eq d 3
    then "3"
    else if nat_eq d 4
    then "4"
    else if nat_eq d 5
    then "5"
    else if nat_eq d 6
    then "6"
    else if nat_eq d 7
    then "7"
    else if nat_eq d 8
    then "8"
    else "9"

show_from : ℕ → ℕ → String
unfolding digit
show_from zero n = ""
show_from (suc fuel) n =
    let front = show_from fuel (n / 10) in
    if ltb n 10 then digit n else String.◌++◌ front (digit (n % 10))

-- `str(n)`: a number has at most as many digits as its value plus one.
unfoldable pub show : ℕ → String
unfolding show_from
show n = show_from (suc n) n

-- `f"{a}:{b}"`
unfoldable pub keyed : String → String → String
keyed a b = String.◌++◌ a (String.◌++◌ ":" b)

-- `ActionKind.value`
abbrev pub kind_value : ActionKind → String
kind_value ActionKind.create_song = "create_song"
kind_value ActionKind.create_arrangement = "create_arrangement"
kind_value ActionKind.insert_item = "insert_item"
kind_value ActionKind.replace_item = "replace_item"
kind_value ActionKind.delete_owned_item = "delete_owned_item"
kind_value ActionKind.noop = "noop"

abbrev pub or_preparation : Option String → String
or_preparation none = "preparation"
or_preparation (some id) = if id == "" then "preparation" else id

-- `factory.make` with the factory's run and its next ordinal.
unfoldable pub make :
    Platform
    → String
    → ℕ
    → ActionKind
    → String
    → Payload
    → Option String
    → List String
    → PlannedAction
make p run_id ordinal kind identity payload event_plan_id dependencies = record {
  id = p.stable_digest (run_id ∷ kind_value kind ∷ or_preparation event_plan_id ∷ identity ∷ []);
  ordinal = ordinal;
  kind = kind;
  payload = payload;
  event_plan_id = event_plan_id;
  dependencies = dependencies;
}

pub record SongResource : Type 0 where
  pub source : SourceSong
  pub song_id : Option String
  pub song_key : Option String
  pub arrangement_id : Option String
  pub arrangement_key : Option String

-- A key that is there, as a list.
abbrev pub present : Option String → List String
present none = []
present (some key) = if key == "" then [] else key ∷ []

unfoldable pub dependencies : SongResource → List String
dependencies resource = present resource.song_key ++ present resource.arrangement_key

-- `_SongResource.payload()`, over a payload.
abbrev pub with_resource : SongResource → Payload → Payload
with_resource resource payload = record payload {
  target_song_id = resource.song_id;
  target_song_key = resource.song_key;
  arrangement_id = resource.arrangement_id;
  arrangement_key = resource.arrangement_key;
}

-- `_produced_resource_keys`
unfoldable pub produced_resource_keys : PlannedAction → List String
produced_resource_keys action = elim action.kind [
  | ActionKind.create_song ↦
      present action.payload.song_resource_key ++ present action.payload.arrangement_resource_key
  | _ ↦ present action.payload.resource_key
]
