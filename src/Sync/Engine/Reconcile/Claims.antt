-- ===== src/Sync/Engine/Reconcile/Claims.antt =====
-- What `_reconcile_agenda_effect` may take for an effect of an earlier attempt.
use worshiptool_churchtools.Prelude.{
  String, ◌≡◌, refl, Bool, true, false, Option, none, some, List, [], ◌∷◌, ◌==◌, member, truthy, In,
  inl, inr, Bool-cases, Dict,
}
use worshiptool_churchtools.Sync.Errors.{Result, ok, raise, Raised}
use worshiptool_churchtools.Sync.Models.{
  ActionKind, ActionResult, Agenda, AgendaItem, Payload, PlannedAction, sorted_items,
}
use worshiptool_churchtools.Sync.Platform.{Platform}
use worshiptool_churchtools.Sync.Engine.Status.{resolve, optional_resolve}
use worshiptool_churchtools.Sync.Engine.Actions.{first_item, holds_song}
use worshiptool_churchtools.Sync.Engine.Reconcile.{
  item_before, item_after, neighbour, candidate_of, replaced, accept_candidate, of_candidate,
  reconcile_song, reconcile_kind, reconcile_agenda_effect, beside, has_id, only_item, text_or_empty,
}

-- The item, if any, is one of the list.
abbrev IsAmong : List AgendaItem → Option AgendaItem → Type 0
IsAmong items none = Unit
IsAmong items (some item) = In item items

IsAmong-later :
    (first : AgendaItem) (items : List AgendaItem) (found : Option AgendaItem)
    → IsAmong items found
    → IsAmong (first ∷ items) found
IsAmong-later first items none h = tt
IsAmong-later first items (some item) h = inr h

first_item-IsAmong :
    (test : AgendaItem → Bool) (items : List AgendaItem) → IsAmong items (first_item test items)
first_item-IsAmong test [] = tt
first_item-IsAmong test (item ∷ items) = elim (Bool-cases (test item)) [
  | inl e ↦ rw e (inl refl)
  | inr e ↦ rw e (IsAmong-later item items _ (first_item-IsAmong test items))
]

item_before-IsAmong : (id : String) (items : List AgendaItem) → IsAmong items (item_before id items)
unfolding item_before
item_before-IsAmong id [] = tt
item_before-IsAmong id (item ∷ []) = tt
item_before-IsAmong id (item ∷ other ∷ items) =
    let rest = item_before-IsAmong id (other ∷ items) in
    elim (Bool-cases (item.id == id)) [
      | inl e ↦ rw e tt
      | inr e ↦ elim (Bool-cases (other.id == id)) [
        | inl e' ↦ rw (e, e') (inl refl)
        | inr e' ↦ rw (e, e') (IsAmong-later item (other ∷ items) _ rest)
      ]
    ]

item_after-IsAmong : (id : String) (items : List AgendaItem) → IsAmong items (item_after id items)
unfolding item_after
item_after-IsAmong id [] = tt
item_after-IsAmong id (item ∷ []) = tt
item_after-IsAmong id (item ∷ other ∷ items) =
    let rest = item_after-IsAmong id (other ∷ items) in
    elim (Bool-cases (item.id == id)) [
      | inl e ↦ rw e (inr (inl refl))
      | inr e ↦ rw e (IsAmong-later item (other ∷ items) _ rest)
    ]

only_item-IsAmong : (items : List AgendaItem) → IsAmong items (only_item items)
only_item-IsAmong [] = tt
only_item-IsAmong (item ∷ []) = inl refl
only_item-IsAmong (item ∷ other ∷ items) = tt

neighbour-IsAmong :
    (before_id after_id : Option String) (items : List AgendaItem)
    → IsAmong items (neighbour before_id after_id items)
unfolding neighbour
neighbour-IsAmong before_id after_id items = elim (Bool-cases (truthy before_id)) [
  | inl e ↦ rw e (item_before-IsAmong (text_or_empty before_id) items)
  | inr e ↦ elim (Bool-cases (truthy after_id)) [
    | inl e' ↦ rw (e, e') (item_after-IsAmong (text_or_empty after_id) items)
    | inr e' ↦ rw (e, e') (only_item-IsAmong items)
  ]
]

abbrev IsAmongResult : List AgendaItem → Result (Option AgendaItem) → Type 0
IsAmongResult items (raise e) = Unit
IsAmongResult items (ok found) = IsAmong items found

IsAmongResult-beside :
    (before after : Result (Option String)) (items : List AgendaItem)
    → IsAmongResult items (beside before after items)
IsAmongResult-beside (raise e) after items = tt
IsAmongResult-beside (ok before) (raise e) items = tt
IsAmongResult-beside (ok before_id) (ok after_id) items = neighbour-IsAmong before_id after_id items

replaced-IsAmong :
    (id : Option String) (items : List AgendaItem) → IsAmongResult items (replaced id items)
replaced-IsAmong none items = tt
replaced-IsAmong (some id) items = first_item-IsAmong (has_id id) items

candidate_of-IsAmong :
    (payload : Payload) (resources : Dict String) (items : List AgendaItem) (kind : ActionKind)
    → IsAmongResult items (candidate_of payload resources items kind)
unfolding candidate_of
candidate_of-IsAmong payload resources items ActionKind.replace_item =
    replaced-IsAmong payload.agenda_item_id items
candidate_of-IsAmong payload resources items ActionKind.insert_item =
    IsAmongResult-beside (optional_resolve resources payload.before_item_id payload.before_item_key)
      (optional_resolve resources payload.after_item_id payload.after_item_key) items
candidate_of-IsAmong payload resources items ActionKind.create_song = tt
candidate_of-IsAmong payload resources items ActionKind.create_arrangement = tt
candidate_of-IsAmong payload resources items ActionKind.delete_owned_item = tt
candidate_of-IsAmong payload resources items ActionKind.noop = tt

abbrev pub is_deletion : ActionKind → Bool
is_deletion ActionKind.delete_owned_item = true
is_deletion _ = false

module _ (action : PlannedAction) (agenda : Agenda) (resources : Dict String) where
  -- The references of the action are known.
  abbrev pub Resolves : Result String → Result String → String → String → Type 0
  Resolves s a song arrangement = (s ≡ ok song) × (a ≡ ok arrangement)

  -- The result names an item of the agenda that holds the song and the arrangement of the action and
  -- that was not there when the plan was made.
  abbrev pub IsClaim : ActionResult → Type 0
  IsClaim result =
      (item : AgendaItem) × (song : String) × (arrangement : String) × In item (sorted_items agenda)
      × (result.agenda_item_id ≡ some item.id)
      × (member item.id action.payload.initial_agenda_item_ids ≡ false)
      × (holds_song item song arrangement ≡ true)
      × Resolves (resolve resources action.payload.target_song_id action.payload.target_song_key)
          (resolve resources action.payload.arrangement_id action.payload.arrangement_key) song
          arrangement

  abbrev Claims : Option ActionResult → Type 0
  Claims none = Unit
  Claims (some result) = IsClaim result

  abbrev ClaimsResult : Result (Option ActionResult) → Type 0
  ClaimsResult (raise e) = Unit
  ClaimsResult (ok found) = Claims found

  abbrev Expected : String → String → Type 0
  Expected =
      Resolves (resolve resources action.payload.target_song_id action.payload.target_song_key)
        (resolve resources action.payload.arrangement_id action.payload.arrangement_key)

  module _ (p : Platform) where
    Claims-accept_candidate :
        (song arrangement : String) (found : Option AgendaItem)
        → Expected song arrangement
        → IsAmong (sorted_items agenda) found
        → Claims (accept_candidate p action.payload agenda song arrangement found)
    unfolding accept_candidate
    Claims-accept_candidate song arrangement none known h = tt
    Claims-accept_candidate song arrangement (some item) known h =
        elim (Bool-cases (member item.id action.payload.initial_agenda_item_ids)) [
          | inl e ↦ rw e tt
          | inr e ↦ elim (Bool-cases (holds_song item song arrangement)) [
            | inl e' ↦ rw (e, e') (item, song, arrangement, h, refl, e, e', known)
            | inr e' ↦ rw (e, e') tt
          ]
        ]

    Claims-of_candidate :
        (song arrangement : String) (found : Result (Option AgendaItem))
        → Expected song arrangement
        → IsAmongResult (sorted_items agenda) found
        → ClaimsResult (of_candidate p action.payload agenda song arrangement found)
    Claims-of_candidate song arrangement (raise e) known h = tt
    Claims-of_candidate song arrangement (ok found) known h =
        Claims-accept_candidate song arrangement found known h

    Claims-reconcile_song :
        (s a : Result String)
        → ((song arrangement : String) → Resolves s a song arrangement → Expected song arrangement)
        → ClaimsResult (reconcile_song p action agenda resources s a)
    unfolding reconcile_song
    Claims-reconcile_song (raise (Raised.sync e)) a known = tt
    Claims-reconcile_song (raise Raised.other) a known = tt
    Claims-reconcile_song (ok song) (raise (Raised.sync e)) known = tt
    Claims-reconcile_song (ok song) (raise Raised.other) known = tt
    Claims-reconcile_song (ok song) (ok arrangement) known =
        Claims-of_candidate song arrangement _ (known song arrangement (refl, refl))
          (candidate_of-IsAmong action.payload resources (sorted_items agenda) action.kind)

    claims_song : ClaimsResult (
        reconcile_song p action agenda resources
          (resolve resources action.payload.target_song_id action.payload.target_song_key)
          (resolve resources action.payload.arrangement_id action.payload.arrangement_key))
    claims_song = Claims-reconcile_song _ _ (λ song arrangement h. h)

    Claims-reconcile_kind :
        (kind : ActionKind)
        → is_deletion kind ≡ false
        → ClaimsResult (reconcile_kind p action agenda resources kind)
    unfolding reconcile_kind
    Claims-reconcile_kind ActionKind.delete_owned_item h = cc
    Claims-reconcile_kind ActionKind.insert_item h = claims_song
    Claims-reconcile_kind ActionKind.replace_item h = claims_song
    Claims-reconcile_kind ActionKind.create_song h = claims_song
    Claims-reconcile_kind ActionKind.create_arrangement h = claims_song
    Claims-reconcile_kind ActionKind.noop h = claims_song

    -- An action other than a deletion that is taken for done by an earlier attempt names an item
    -- of the agenda that holds exactly the song and the arrangement that the action refers to,
    -- and that is not among the items that the action lists as there when it was planned.
    pub reconcile_agenda_effect-IsClaim :
        (result : ActionResult)
        → is_deletion action.kind ≡ false
        → reconcile_agenda_effect p action agenda resources ≡ ok (some result)
        → IsClaim result
    unfolding reconcile_agenda_effect
    reconcile_agenda_effect-IsClaim result kind h =
        let claims = Claims-reconcile_kind action.kind kind in (rw h at claims)
