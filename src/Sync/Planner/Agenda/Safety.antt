-- ===== src/Sync/Planner/Agenda/Safety.antt =====
-- What the planned actions of one event may touch.
use worshiptool_churchtools.Prelude.{
  ℕ, String, ◌≡◌, refl, Option, none, some, List, [], ◌∷◌, inl, inr, length, any, sort, arith, All,
  All-sort, All-intro, In, Bool-cases,
}
use worshiptool_churchtools.Sync.Errors.{Result, ok, raise}
use worshiptool_churchtools.Sync.Models.{AgendaItem, PlacementRule, Ownership, is_error}
use worshiptool_churchtools.Sync.Planner.Factory.{SongResource, make, keyed, show}
use worshiptool_churchtools.Sync.Planner.Placements.{
  Draft, Cursor, Setting, place_song, place_songs, resource_at, with_song, unless_broken, slice,
}
use worshiptool_churchtools.Sync.Planner.Agenda.{
  overlaps, is_fail, and_then, place_at_anchor, place_anchored, place, place_all, release,
  release_all, stays, note_changed, fresh_draft, settle, plan_placements, item_of, ownership_leb,
}
use worshiptool_churchtools.Sync.Planner.Agenda.Permitted.{
  Permitted-release, IsSafe-place_song, IsPermitted, IsSafe-add, IsSafe,
}

module _ (c : Setting) where
  abbrev SafeResult : Result Draft → Type 0
  SafeResult (raise e) = Unit
  SafeResult (ok d) = IsSafe c d

  SafeResult-with_song :
      (o : Option (String × SongResource)) (k : String → SongResource → Result Draft)
      → ((song_id : String) (resource : SongResource) → SafeResult (k song_id resource))
      → SafeResult (with_song c o k)
  SafeResult-with_song none k h = tt
  SafeResult-with_song (some (song_id, resource)) k h = h song_id resource

  SafeResult-unless_broken :
      (r : Draft × Option Cursor) (k : Draft → Cursor → Result Draft)
      → IsSafe c r.0
      → ((d : Draft) (at : Cursor) → IsSafe c d → SafeResult (k d at))
      → SafeResult (unless_broken c r k)
  SafeResult-unless_broken (d, none) k s h = s
  SafeResult-unless_broken (d, some at) k s h = h d at s

  SafeResult-place_songs :
      (placement : PlacementRule) (indexes : List ℕ) (d : Draft) (at : Cursor)
      → IsSafe c d
      → SafeResult (place_songs c placement indexes d at)
  unfolding place_songs
  SafeResult-place_songs placement [] d at h = h
  SafeResult-place_songs placement (index ∷ indexes) d at h =
      SafeResult-with_song (resource_at c index) _ λ song_id resource.
        SafeResult-unless_broken
          (place_song c placement (keyed placement.id (keyed (show index) song_id)) resource d at)
          (place_songs c placement indexes) (IsSafe-place_song c placement _ resource d at h)
          (SafeResult-place_songs placement indexes)

  SafeResult-place_at_anchor :
      (placement : PlacementRule) (indexes : List ℕ) (d : Draft)
      → IsSafe c d
      → SafeResult (place_at_anchor c placement indexes d)
  unfolding place_at_anchor
  SafeResult-place_at_anchor placement indexes d h = SafeResult-place_songs placement indexes d _ h

  SafeResult-place_anchored :
      (placement : PlacementRule) (indexes : List ℕ) (anchors : List AgendaItem) (d : Draft)
      → IsSafe c d
      → SafeResult (place_anchored c placement indexes anchors d)
  unfolding place_anchored
  SafeResult-place_anchored placement indexes [] d h = h
  SafeResult-place_anchored placement indexes (anchor ∷ []) d h =
      SafeResult-place_at_anchor placement indexes d h
  SafeResult-place_anchored placement indexes (anchor ∷ other ∷ anchors) d h =
      elim (Bool-cases (is_fail placement.multiple_anchor_policy)) [
        | inl e ↦ rw e h
        | inr e ↦ rw e (SafeResult-place_at_anchor placement indexes _ h)
      ]

  SafeResult-place :
      (placement : PlacementRule) (d : Draft) → IsSafe c d → SafeResult (place c placement d)
  unfolding place
  SafeResult-place placement d h =
      let indexes =
        slice (length c.source_event.song_ids) placement.song_start placement.song_end in
      elim (Bool-cases (overlaps indexes d.used)) [
        | inl e ↦ rw e h
        | inr e ↦ rw e (SafeResult-place_anchored placement indexes _ _ h)
      ]

  SafeResult-and_then :
      (r : Result Draft) (k : Draft → Result Draft)
      → SafeResult r
      → ((d : Draft) → IsSafe c d → SafeResult (k d))
      → SafeResult (and_then c r k)
  SafeResult-and_then (raise e) k s h = tt
  SafeResult-and_then (ok d) k s h = h d s

  SafeResult-place_all :
      (placements : List PlacementRule) (d : Draft)
      → IsSafe c d
      → SafeResult (place_all c placements d)
  unfolding place_all
  SafeResult-place_all [] d h = h
  SafeResult-place_all (placement ∷ placements) d h =
      SafeResult-and_then (place c placement d) (place_all c placements)
        (SafeResult-place placement d h) (SafeResult-place_all placements)

  actions-note_changed :
      (o : Ownership) (item : Option AgendaItem) (d : Draft)
      → (note_changed c o item d).actions ≡ d.actions
  actions-note_changed o none d = refl
  actions-note_changed o (some item) d = ground arith

  IsSafe-release :
      (o : Ownership) (d : Draft) → In o c.owners → IsSafe c d → IsSafe c (release c o d)
  unfolding release make
  IsSafe-release o d m h = elim (Bool-cases (stays c d o)) [
    | inl e ↦ rw e h
    | inr e ↦ rw e (
        IsSafe-add c (note_changed c o (item_of o.agenda_item_id c.items) d) _
          (rw actions-note_changed h) (Permitted-release c _ _ (o, m, refl, ground arith, refl)))
  ]

  IsSafe-release_all :
      (os : List Ownership) (d : Draft)
      → All (λ o. In o c.owners) os
      → IsSafe c d
      → IsSafe c (release_all c os d)
  unfolding release_all
  IsSafe-release_all [] d m h = h
  IsSafe-release_all (o ∷ os) d m h =
      IsSafe-release_all os (release c o d) m.1 (IsSafe-release o d m.0 h)

  IsSafe-settle : (d : Draft) → IsSafe c d → IsSafe c (settle c d)
  IsSafe-settle d h = elim (Bool-cases (any d.issues is_error)) [ inl e ↦ rw e tt | inr e ↦ rw e h ]

  -- Every planned action of an event is permitted. A replacement, or a confirmation of an item that
  -- is already right, is of a song item of the agenda that no other profile owns; a deletion is of an
  -- item that this profile owns and that still holds the song and arrangement last verified there;
  -- an insertion names no item; a release without deletion is of an item that this profile owns. No
  -- other kind of action occurs.
  pub plan_placements-IsPermitted :
      (ordinal : ℕ) (d : Draft) → plan_placements c ordinal ≡ ok d → All (IsPermitted c) d.actions
  unfolding plan_placements
  plan_placements-IsPermitted ordinal d h =
      let safe : SafeResult (plan_placements c ordinal) =
        SafeResult-and_then (place_all c c.profile.placements (fresh_draft c ordinal)) _
          (SafeResult-place_all c.profile.placements (fresh_draft c ordinal) tt)
          (λ d' s. IsSafe-settle (release_all c (sort ownership_leb c.owners) d') (
            IsSafe-release_all (sort ownership_leb c.owners) d'
              (All-sort _ ownership_leb c.owners (All-intro _ c.owners (λ o m. m))) s)) in
      rw h at safe
