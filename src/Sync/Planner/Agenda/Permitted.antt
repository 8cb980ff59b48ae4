-- ===== src/Sync/Planner/Agenda/Permitted.antt =====
-- What an action on an agenda may be, and why every placement and release is one.
use worshiptool_churchtools.Prelude.{
  String, ◌≡◌, refl, ap, Bool, true, false, Option, none, some, [], ◌∷◌, ◌++◌, ◌==◌, ◌⊎◌, inl, inr,
  if◌then◌else◌, get_elem?, arith, All, All-append, In, In-get_elem?, Bool-cases,
}
use worshiptool_churchtools.Sync.Models.{
  AgendaItem, PlacementRule, Ownership, ActionKind, Payload, PlannedAction,
}
use worshiptool_churchtools.Sync.Planner.Factory.{SongResource, make}
use worshiptool_churchtools.Sync.Planner.Placements.{
  Draft, Cursor, Setting, holds, neighbour, is_song, owned_by_other, take_slot, insert_song, Slot,
  song_item, foreign, gap, slot_at, place_in, advance, place_song,
}
use worshiptool_churchtools.Sync.Planner.Agenda.{item_of, fingerprint_matches}

module _ (c : Setting) where
  -- The action is about a song item of the agenda that no other profile owns.
  abbrev pub TakesSlot : PlannedAction → Type 0
  TakesSlot a =
      (item : AgendaItem) × In item c.items
      × (a.payload.agenda_item_id ≡ some item.id)
      × (is_song c item ≡ true)
      × (owned_by_other c item ≡ false)

  -- The action is about an item that this profile is recorded to own.
  abbrev pub Releases : (Ownership → Type 0) → PlannedAction → Type 0
  Releases P a =
      (o : Ownership) × In o c.owners
      × (a.payload.agenda_item_id ≡ some o.agenda_item_id)
      × ((o.profile_id == c.profile.id) ≡ true)
      × P o

  -- The item still holds what this profile last verified there.
  abbrev pub Untouched : Ownership → Type 0
  Untouched o = fingerprint_matches o (item_of o.agenda_item_id c.items) ≡ true

  -- What an action may touch, by its kind.
  abbrev pub Permitted : ActionKind → PlannedAction → Type 0
  Permitted ActionKind.insert_item a = a.payload.agenda_item_id ≡ none
  Permitted ActionKind.replace_item a = TakesSlot a
  Permitted ActionKind.delete_owned_item a = Releases Untouched a
  Permitted ActionKind.noop a = TakesSlot a ⊎ Releases (λ o. Unit) a
  Permitted _ a = ⊥

  abbrev pub IsPermitted : PlannedAction → Type 0
  IsPermitted a = Permitted a.kind a

  abbrev pub IsSafe : Draft → Type 0
  IsSafe d = All IsPermitted d.actions

  pub IsSafe-add :
      (d : Draft) (a : PlannedAction)
      → IsSafe d
      → IsPermitted a
      → All IsPermitted (d.actions ++ a ∷ [])
  IsSafe-add d a h k = All-append IsPermitted d.actions (a ∷ []) h (k, tt)

  pub Permitted-slot :
      (b : Bool) (a : PlannedAction)
      → TakesSlot a
      → Permitted (if b then ActionKind.noop else ActionKind.replace_item) a
  Permitted-slot true a h = inl h
  Permitted-slot false a h = h

  pub Permitted-release :
      (b : Bool) (a : PlannedAction)
      → Releases (λ o. fingerprint_matches o (item_of o.agenda_item_id c.items) ≡ b) a
      → Permitted (if b then ActionKind.delete_owned_item else ActionKind.noop) a
  Permitted-release true a h = h
  Permitted-release false a (o, m, e, own, f) = inr (o, m, e, own, tt)

  pub IsSafe-take_slot :
      (placement : PlacementRule) (key : String) (resource : SongResource) (item : AgendaItem)
      (d : Draft)
      → In item c.items
      → is_song c item ≡ true
      → owned_by_other c item ≡ false
      → IsSafe d
      → IsSafe (take_slot c placement key resource item d)
  unfolding take_slot make
  IsSafe-take_slot placement key resource item d m s o h =
      IsSafe-add d _ h (Permitted-slot (holds c item resource) _ (item, m, refl, s, o))

  pub neighbour-agenda_item_id :
      (current : Option AgendaItem) (at : Cursor) (payload : Payload)
      → (neighbour c current at payload).agenda_item_id ≡ payload.agenda_item_id
  neighbour-agenda_item_id current at payload = ground arith

  pub IsSafe-insert_song :
      (placement : PlacementRule) (key : String) (resource : SongResource)
      (current : Option AgendaItem) (at : Cursor) (d : Draft)
      → IsSafe d
      → IsSafe (insert_song c placement key resource current at d)
  unfolding insert_song make
  IsSafe-insert_song placement key resource current at d h =
      IsSafe-add d _ h (neighbour-agenda_item_id current at _)

  -- A slot that is given to a song is a song item that no other profile owns.
  pub slot_at-song_item :
      (o : Option AgendaItem) (item : AgendaItem)
      → slot_at c o ≡ song_item item
      → (o ≡ some item) × (is_song c item ≡ true) × (owned_by_other c item ≡ false)
  slot_at-song_item none item h = cc
  slot_at-song_item (some found) item h = elim (Bool-cases (is_song c found)) [
    | inl song ↦ elim (Bool-cases (owned_by_other c found)) [
      | inl other ↦ cc (rw (song, other) at h)
      | inr free ↦
          let e : found ≡ item = cc (rw (song, free) at h) in
          (ap some e, rw (← e) song, rw (← e) free)
    ]
    | inr plain ↦ cc (rw plain at h)
  ]

  pub IsSafe-place_in :
      (placement : PlacementRule) (key : String) (resource : SongResource) (d : Draft) (at : Cursor)
      (slot : Slot c)
      → ((item : AgendaItem)
          → slot ≡ song_item item
          → In item c.items × (is_song c item ≡ true) × (owned_by_other c item ≡ false))
      → IsSafe d
      → IsSafe (place_in c placement key resource d at slot).0
  unfolding place_in
  IsSafe-place_in placement key resource d at foreign f h = h
  IsSafe-place_in placement key resource d at (song_item item) f h =
      let (m, s, o) = f item refl in IsSafe-take_slot placement key resource item d m s o h
  IsSafe-place_in placement key resource d at (gap current) f h =
      IsSafe-insert_song placement key resource current at d h

  pub IsSafe-place_song :
      (placement : PlacementRule) (key : String) (resource : SongResource) (d : Draft) (at : Cursor)
      → IsSafe d
      → IsSafe (place_song c placement key resource d at).0
  unfolding place_song
  IsSafe-place_song placement key resource d at h =
      let n = (advance c d at).position in
      IsSafe-place_in placement key resource _ (advance c d at) (slot_at c (get_elem? c.items n))
        (λ item e.
          let (found, s, o) = slot_at-song_item (get_elem? c.items n) item e in
          (In-get_elem? c.items n item found, s, o))
        h
  -- A draft, where there is one.
