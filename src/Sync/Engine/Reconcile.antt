-- ===== src/Sync/Engine/Reconcile.antt =====
-- `_reconcile_agenda_effect`: a change that was made before a worker crashed.
pub mod Claims
use worshiptool_churchtools.Prelude.{
  String, Bool, true, Option, none, some, List, [], ◌∷◌, if◌then◌else◌, ◌==◌, any, member, truthy,
  Dict,
}
use worshiptool_churchtools.Sync.Errors.{Result, ok, raise, Raised}
use worshiptool_churchtools.Sync.Models.{
  ActionKind, Agenda, AgendaItem, Payload, PlannedAction, sorted_items, ActionResult, empty_result,
}
use worshiptool_churchtools.Sync.Platform.{Platform}
use worshiptool_churchtools.Sync.Planner.Events.{agenda_fingerprint}
use worshiptool_churchtools.Sync.Engine.Status.{resolve, optional_resolve}
use worshiptool_churchtools.Sync.Engine.Actions.{first_item, holds_song}

abbrev pub has_id : String → AgendaItem → Bool
has_id id item = item.id == id

-- The item in front of the first item of this id, and the one behind it.
unfoldable pub item_before : String → List AgendaItem → Option AgendaItem
item_before id [] = none
item_before id (item ∷ []) = none
item_before id (item ∷ other ∷ items) =
    let rest = item_before id (other ∷ items) in
    if item.id == id then none else if other.id == id then some item else rest

unfoldable pub item_after : String → List AgendaItem → Option AgendaItem
item_after id [] = none
item_after id (item ∷ []) = none
item_after id (item ∷ other ∷ items) =
    let rest = item_after id (other ∷ items) in if item.id == id then some other else rest

abbrev pub only_item : List AgendaItem → Option AgendaItem
only_item [] = none
only_item (item ∷ []) = some item
only_item (item ∷ other ∷ items) = none

abbrev pub text_or_empty : Option String → String
text_or_empty none = ""
text_or_empty (some text) = text

-- The place of an insertion, by its neighbour.
unfoldable pub neighbour : Option String → Option String → List AgendaItem → Option AgendaItem
neighbour before_id after_id items =
    if truthy before_id
    then item_before (text_or_empty before_id) items
    else if truthy after_id
    then item_after (text_or_empty after_id) items
    else only_item items

abbrev pub beside :
    Result (Option String) → Result (Option String) → List AgendaItem → Result (Option AgendaItem)
beside (raise e) after items = raise e
beside (ok before) (raise e) items = raise e
beside (ok before) (ok after) items = ok (neighbour before after items)

abbrev pub replaced : Option String → List AgendaItem → Result (Option AgendaItem)
replaced none items = raise Raised.other
replaced (some id) items = ok (first_item (has_id id) items)

-- The item that the action may have left.
unfoldable pub candidate_of :
    Payload → Dict String → List AgendaItem → ActionKind → Result (Option AgendaItem)
candidate_of payload resources items ActionKind.replace_item = replaced payload.agenda_item_id items
candidate_of payload resources items ActionKind.insert_item =
    beside (optional_resolve resources payload.before_item_id payload.before_item_key)
      (optional_resolve resources payload.after_item_id payload.after_item_key) items
candidate_of payload resources items _ = ok none

module _ (p : Platform) where
  abbrev pub reconciled_item : Payload → Agenda → AgendaItem → ActionResult
  reconciled_item payload agenda item = record empty_result {
    agenda_item_id = some item.id;
    agenda_fingerprint = some (agenda_fingerprint p agenda);
    resource_key = if truthy payload.resource_key then payload.resource_key else none;
  }

  -- The strict checks on the candidate.
  unfoldable pub accept_candidate :
      Payload → Agenda → String → String → Option AgendaItem → Option ActionResult
  accept_candidate payload agenda song arrangement none = none
  accept_candidate payload agenda song arrangement (some item) =
      if member item.id payload.initial_agenda_item_ids
      then none
      else if holds_song item song arrangement
      then some (reconciled_item payload agenda item)
      else none

  abbrev pub of_candidate :
      Payload → Agenda → String → String → Result (Option AgendaItem) → Result (Option ActionResult)
  of_candidate payload agenda song arrangement (raise e) = raise e
  of_candidate payload agenda song arrangement (ok candidate) =
      ok (accept_candidate payload agenda song arrangement candidate)

  unfoldable pub reconcile_deletion : Agenda → Option String → Result (Option ActionResult)
  reconcile_deletion agenda none = raise Raised.other
  reconcile_deletion agenda (some id) =
      if any (sorted_items agenda) (has_id id)
      then ok none
      else ok (
          some (record empty_result {
            agenda_item_id = some id;
            deleted = true;
            agenda_fingerprint = some (agenda_fingerprint p agenda);
          }))

  -- The `try` around the references: a song or an arrangement that is unknown is no effect.
  unfoldable pub reconcile_song :
      PlannedAction
      → Agenda
      → Dict String
      → Result String
      → Result String
      → Result (Option ActionResult)
  reconcile_song action agenda resources (raise (Raised.sync e)) arrangement = ok none
  reconcile_song action agenda resources (raise Raised.other) arrangement = raise Raised.other
  reconcile_song action agenda resources (ok song) (raise (Raised.sync e)) = ok none
  reconcile_song action agenda resources (ok song) (raise Raised.other) = raise Raised.other
  reconcile_song action agenda resources (ok song) (ok arrangement) =
      of_candidate action.payload agenda song arrangement
        (candidate_of action.payload resources (sorted_items agenda) action.kind)

  unfoldable pub reconcile_kind :
      PlannedAction → Agenda → Dict String → ActionKind → Result (Option ActionResult)
  unfolding reconcile_deletion reconcile_song
  reconcile_kind action agenda resources ActionKind.delete_owned_item =
      reconcile_deletion agenda action.payload.agenda_item_id
  reconcile_kind action agenda resources _ =
      reconcile_song action agenda resources
        (resolve resources action.payload.target_song_id action.payload.target_song_key)
        (resolve resources action.payload.arrangement_id action.payload.arrangement_key)

  -- `_reconcile_agenda_effect`
  unfoldable pub reconcile_agenda_effect :
      PlannedAction → Agenda → Dict String → Result (Option ActionResult)
  unfolding reconcile_kind
  reconcile_agenda_effect action agenda resources =
      reconcile_kind action agenda resources action.kind
