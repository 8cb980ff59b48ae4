-- ===== src/Sync/Engine/Actions.antt =====
-- `_apply_action` and `_verify_action`.
use worshiptool_churchtools.Prelude.{
  String, Bool, true, false, Option, none, some, List, [], ◌∷◌, if◌then◌else◌, ◌&&◌, ◌||◌, ◌==◌,
  any, opt_eq, Dict,
}
use worshiptool_churchtools.Sync.Errors.{Result, ok, raise, Raised, concurrent_modification_error}
use worshiptool_churchtools.Sync.Models.{
  ActionKind, Agenda, AgendaItem, Arrangement, Payload, PlannedAction, TargetSong, ActionResult,
  empty_result,
}
use worshiptool_churchtools.Sync.Platform.{Platform}
use worshiptool_churchtools.Sync.Matching.Text.{normalize_text, normalize_ccli}
use worshiptool_churchtools.Sync.Planner.Events.{agenda_fingerprint}
use worshiptool_churchtools.Sync.Engine.Calls.{
  Call, Ports, Action, pure, ◌>>=◌, perform, lift, resources_of,
}
use worshiptool_churchtools.Sync.Engine.Status.{or_option, resolve, optional_resolve}

-- `payload[key]`, a `KeyError` where the key is missing
abbrev pub required : Option String → Result String
required none = raise Raised.other
required (some value) = ok value

abbrev pub conflict : {A : Type 0} → Result A
conflict = raise (Raised.sync concurrent_modification_error)

-- `next((item for item in items if test(item)), None)`
abbrev pub first_item {ℓ} : {A : Type ℓ} → (A → Bool) → List A → Option A
first_item test [] = none
first_item test (x ∷ xs) = let rest = first_item test xs in if test x then some x else rest

-- `str(value)` of an optional string
abbrev pub text_of : Option String → String
text_of none = "None"
text_of (some value) = value

abbrev default_of : Arrangement → Bool
default_of arrangement = arrangement.is_default

abbrev first_or_default : Option Arrangement → List Arrangement → Result Arrangement
first_or_default (some arrangement) arrangements = ok arrangement
first_or_default none [] = conflict
first_or_default none (arrangement ∷ arrangements) = ok arrangement

-- The item of an agenda that an action has to have left there.
abbrev pub holds_song : AgendaItem → String → String → Bool
holds_song item song arrangement =
    item.type == "song"
    && opt_eq item.song_id (some song)
    && opt_eq item.arrangement_id (some arrangement)

module _ (p : Platform) (ports : Ports) where
  -- `_ensure_remote_lease`
  unfoldable pub ensure_remote_lease : Action (Unit {0})
  ensure_remote_lease w =
      if ports.lease_lost w.calls
      then (raise (Raised.sync concurrent_modification_error), w)
      else (ok tt, w)

  -- `_apply_action`, by the kind of the action
  unfoldable pub apply_kind : PlannedAction → ActionKind → Action ActionResult
  apply_kind action ActionKind.create_song = do
    song ← perform ports.song (Call.create_song action.payload action.id)
    arrangement ←
        lift (first_or_default (first_item default_of song.arrangements) song.arrangements)
    song_key ← lift (required action.payload.song_resource_key)
    arrangement_key ← lift (required action.payload.arrangement_resource_key)
    pure (record empty_result {
      song_id = some song.id;
      arrangement_id = some arrangement.id;
      song_resource_key = some song_key;
      arrangement_resource_key = some arrangement_key;
    })
  apply_kind action ActionKind.create_arrangement = do
    resources ← resources_of
    song_id ← lift (resolve resources action.payload.target_song_id action.payload.target_song_key)
    name ← lift (required action.payload.name)
    arrangement ← perform ports.arrangement (Call.create_arrangement song_id name action.id)
    key ← lift (required action.payload.resource_key)
    pure (record empty_result {
      song_id = some song_id;
      arrangement_id = some arrangement.id;
      resource_key = some key;
    })
  apply_kind action ActionKind.noop =
      pure (record empty_result { agenda_item_id = action.payload.agenda_item_id; noop = true })
  apply_kind action ActionKind.insert_item = do
    event_id ← lift (required action.payload.target_event_id)
    resources ← resources_of
    arrangement_id ←
        lift (resolve resources action.payload.arrangement_id action.payload.arrangement_key)
    before_id ←
        lift
          (optional_resolve resources action.payload.before_item_id action.payload.before_item_key)
    after_id ←
        lift (optional_resolve resources action.payload.after_item_id action.payload.after_item_key)
    item ← perform ports.item (
        Call.insert_agenda_song event_id arrangement_id action.payload.defaults action.id before_id
          after_id)
    key ← lift (required action.payload.resource_key)
    pure (record empty_result { agenda_item_id = some item.id; resource_key = some key })
  apply_kind action ActionKind.replace_item = do
    event_id ← lift (required action.payload.target_event_id)
    resources ← resources_of
    arrangement_id ←
        lift (resolve resources action.payload.arrangement_id action.payload.arrangement_key)
    item_id ← lift (required action.payload.agenda_item_id)
    item ←
        perform ports.item (
          Call.replace_agenda_song event_id item_id arrangement_id action.payload.defaults
            action.id)
    pure (record empty_result { agenda_item_id = some item.id })
  apply_kind action ActionKind.delete_owned_item = do
    event_id ← lift (required action.payload.target_event_id)
    item_id ← lift (required action.payload.agenda_item_id)
    _ ← perform ports.done (Call.delete_agenda_item event_id item_id action.id)
    pure (record empty_result { agenda_item_id = some item_id; deleted = true })

  unfoldable pub apply_action : PlannedAction → Action ActionResult
  unfolding apply_kind
  apply_action action = apply_kind action action.kind

  -- `any(item.id == str(result["arrangement_id"]) for item in song.arrangements)`
  abbrev has_arrangement : List Arrangement → Option String → Result Bool
  has_arrangement [] id = ok false
  has_arrangement (a ∷ more) none = raise Raised.other
  has_arrangement (a ∷ more) (some id) = ok (any (a ∷ more) (λ (b : Arrangement). b.id == id))

  abbrev confirmed : ActionResult → Result Bool → Result ActionResult
  confirmed result (raise e) = raise e
  confirmed result (ok true) = ok result
  confirmed result (ok false) = conflict

  -- The checks on the song that `_verify_action` reads after it was created.
  unfoldable pub verify_song : Payload → ActionResult → TargetSong → Result ActionResult
  verify_song payload result song = elim payload.name [
    | none ↦ raise Raised.other
    | some name ↦
        if normalize_text p song.name == normalize_text p name
        then if normalize_ccli p payload.ccli == ""
            || normalize_ccli p song.ccli == normalize_ccli p payload.ccli
          then confirmed result (has_arrangement song.arrangements result.arrangement_id)
          else conflict
        else conflict
  ]

  abbrev named : Arrangement → Option String → Result Bool → Result Bool
  named a none rest = raise Raised.other
  named a (some name) rest =
      if normalize_text p a.name == normalize_text p name then ok true else rest

  unfoldable pub has_named_arrangement :
      Option String → Option String → List Arrangement → Result Bool
  has_named_arrangement id name [] = ok false
  has_named_arrangement none name (a ∷ more) = raise Raised.other
  has_named_arrangement (some id) name (a ∷ more) =
      let rest = has_named_arrangement (some id) name more in
      if a.id == id then named a name rest else rest

  -- The checks on the agenda that `_verify_action` reads.
  unfoldable pub verify_item :
      PlannedAction → Dict String → ActionResult → Agenda → Result ActionResult
  verify_item action resources result agenda =
      let payload = action.payload in
      let item_id = text_of (or_option result.agenda_item_id payload.agenda_item_id) in
      let item = first_item (λ (candidate : AgendaItem). candidate.id == item_id) agenda.items in
      let fingerprint = some (agenda_fingerprint p agenda) in
      elim action.kind [
        | ActionKind.delete_owned_item ↦ elim item [
          | none ↦ ok (record result { agenda_fingerprint = fingerprint })
          | some found ↦ conflict
        ]
        | _ ↦ elim (resolve resources payload.target_song_id payload.target_song_key) [
          | raise e ↦ raise e
          | ok song ↦ elim (resolve resources payload.arrangement_id payload.arrangement_key) [
            | raise e ↦ raise e
            | ok arrangement ↦ elim item [
              | none ↦ conflict
              | some found ↦
                  if holds_song found song arrangement
                  then ok (record result {
                    target_song_id = some song;
                    arrangement_id = some arrangement;
                    agenda_fingerprint = fingerprint;
                  })
                  else conflict
            ]
          ]
        ]
      ]

  unfoldable pub verify_on_agenda : PlannedAction → ActionResult → Action ActionResult
  verify_on_agenda action result = do
    event_id ← lift (required action.payload.target_event_id)
    agenda ← perform ports.agenda (Call.get_agenda event_id)
    resources ← resources_of
    lift (verify_item action resources result agenda)

  -- `_verify_action`, by the kind of the action
  unfoldable pub verify_kind : PlannedAction → ActionResult → ActionKind → Action ActionResult
  verify_kind action result ActionKind.create_song = do
    id ← lift (required result.song_id)
    song ← perform ports.song (Call.get_song id)
    lift (verify_song action.payload result song)
  verify_kind action result ActionKind.create_arrangement = do
    id ← lift (required result.song_id)
    song ← perform ports.song (Call.get_song id)
    lift (
        confirmed result
          (has_named_arrangement result.arrangement_id action.payload.name song.arrangements))
  verify_kind action result ActionKind.noop =
      if action.payload.cleanup_only then pure result else verify_on_agenda action result
  verify_kind action result _ = verify_on_agenda action result

  unfoldable pub verify_action : PlannedAction → ActionResult → Action ActionResult
  unfolding verify_kind
  verify_action action result = verify_kind action result action.kind
