-- ===== src/Sync/Planner/Agenda.antt =====
-- `_plan_placements`: the loop over the placements, the release of ownerships, and the result.
pub mod Permitted
pub mod Safety
use worshiptool_churchtools.Prelude.{
  ℕ, zero, suc, ◌+◌, ◌-◌, String, Bool, true, false, not, Option, none, some, List, [], ◌∷◌, ◌++◌,
  ◌==◌, ◌&&◌, ◌||◌, if◌then◌else◌, length, get_elem?, is_nil, any, select, find, member, sort,
  str_leb, opt_eq, ltb,
}
use worshiptool_churchtools.Sync.Errors.{Result, ok, raise}
use worshiptool_churchtools.Sync.Models.{
  AgendaItem, AnchorRelation, MultipleAnchorPolicy, PlacementRule, Ownership, ActionKind, IssueCode,
  PlanIssue, PlannedAction, error_issue, empty_payload, is_error,
}
use worshiptool_churchtools.Sync.Planner.Factory.{keyed}
use worshiptool_churchtools.Sync.Planner.Placements.{
  Draft, Cursor, Setting, add_issue, warning, anchor_matches, index_of, slice, member_nat,
  place_songs, add_action,
}

-- `any(...)` of `used_source_indexes.intersection(indexes)`
abbrev pub overlaps : List ℕ → List ℕ → Bool
overlaps indexes used = any indexes (λ i. member_nat i used)

abbrev pub is_fail : MultipleAnchorPolicy → Bool
is_fail MultipleAnchorPolicy.fail = true
is_fail MultipleAnchorPolicy.first = false

abbrev pub start_position : AnchorRelation → ℕ → ℕ
start_position AnchorRelation.after anchor = anchor + 1
start_position _ anchor = anchor

abbrev pub item_before : ℕ → List AgendaItem → Option String
item_before zero items = none
item_before (suc n) items = elim (get_elem? items n) [ none ↦ none | some item ↦ some item.id ]

-- `item_by_id.get(id)`: the last item of an id wins in that `dict`.
unfoldable pub item_of : String → List AgendaItem → Option AgendaItem
item_of id [] = none
item_of id (item ∷ items) = elim (item_of id items) [
  | some later ↦ some later
  | none ↦ if item.id == id then some item else none
]

-- `key=lambda value: (value.placement_id, value.source_key, value.agenda_item_id)`
abbrev pub ownership_leb : Ownership → Ownership → Bool
ownership_leb a b =
    if not (a.placement_id == b.placement_id)
    then str_leb a.placement_id b.placement_id
    else if not (a.source_key == b.source_key)
    then str_leb a.source_key b.source_key
    else str_leb a.agenda_item_id b.agenda_item_id

-- An expected value that is there and equal.
abbrev pub expected : Option String → Option String → Bool
expected none actual = false
expected (some value) actual = opt_eq actual (some value)

-- `fingerprint_matches`: the item still holds the song and arrangement that were last verified.
unfoldable pub fingerprint_matches : Ownership → Option AgendaItem → Bool
fingerprint_matches o none = false
fingerprint_matches o (some item) =
    item.type == "song"
    && expected o.target_song_id item.song_id
    && expected o.arrangement_id item.arrangement_id

module _ (c : Setting) where
  -- The songs of a placement whose anchors are the items from the first match on.
  unfoldable pub place_at_anchor : PlacementRule → List ℕ → Draft → Result Draft
  place_at_anchor placement indexes d =
      let test = anchor_matches c.platform placement.anchor in
      let position = start_position placement.relation (index_of test c.items) in
      place_songs c placement indexes d (record {
        position = position;
        last_item_id = item_before position c.items;
        last_item_key = none;
      })

  -- The choice of the anchor; the first of several is taken with a warning, where the policy allows.
  unfoldable pub place_anchored : PlacementRule → List ℕ → List AgendaItem → Draft → Result Draft
  unfolding place_at_anchor
  place_anchored placement indexes [] d = ok (add_issue (error_issue IssueCode.anchor_not_found) d)
  place_anchored placement indexes (anchor ∷ []) d = place_at_anchor placement indexes d
  place_anchored placement indexes (anchor ∷ other ∷ anchors) d =
      if is_fail placement.multiple_anchor_policy
      then ok (add_issue (error_issue IssueCode.anchor_not_unique) d)
      else place_at_anchor placement indexes
          (add_issue (warning IssueCode.anchor_multiple_first_selected) d)

  -- The body of the loop over the placements.
  unfoldable pub place : PlacementRule → Draft → Result Draft
  unfolding place_anchored
  place placement d =
      let indexes =
        slice (length c.source_event.song_ids) placement.song_start placement.song_end in
      if overlaps indexes d.used
      then ok (add_issue (error_issue IssueCode.placement_overlap) d)
      else place_anchored placement indexes
          (select (anchor_matches c.platform placement.anchor) c.items)
          (record d { used = indexes ++ d.used })

  abbrev pub and_then : Result Draft → (Draft → Result Draft) → Result Draft
  and_then (raise e) k = raise e
  and_then (ok d) k = k d

  unfoldable pub place_all : List PlacementRule → Draft → Result Draft
  place_all [] d = ok d
  place_all (placement ∷ placements) d = and_then (place placement d) (place_all placements)

  -- An ownership that this run does not have to release.
  abbrev pub stays : Draft → Ownership → Bool
  stays d o =
      not (o.profile_id == c.profile.id)
      || member o.source_key d.desired
      || member o.agenda_item_id d.reserved

  abbrev pub note_changed : Ownership → Option AgendaItem → Draft → Draft
  note_changed o none d = d
  note_changed o (some item) d =
      if fingerprint_matches o (some item)
      then d
      else add_issue (warning IssueCode.owned_agenda_item_changed) d

  -- The body of the loop over the ownerships.
  unfoldable pub release : Ownership → Draft → Draft
  release o d =
      let item = item_of o.agenda_item_id c.items in
      let matches = fingerprint_matches o item in
      if stays d o
      then d
      else add_action c (if matches then ActionKind.delete_owned_item else ActionKind.noop)
          (keyed "delete" o.agenda_item_id)
          (record empty_payload {
            profile_id = some c.profile.id;
            target_event_id = some c.target_event_id;
            agenda_item_id = some o.agenda_item_id;
            source_key = some o.source_key;
            placement_id = some o.placement_id;
            cleanup_only = not matches;
          })
          [] (note_changed o item d)

  unfoldable pub release_all : List Ownership → Draft → Draft
  release_all [] d = d
  release_all (o ∷ os) d = release_all os (release o d)

  abbrev pub fresh_draft : ℕ → Draft
  fresh_draft ordinal = record {
    actions = [];
    issues = [];
    used = [];
    reserved = [];
    desired = [];
    ordinal = ordinal;
  }

  -- No action is left where an issue is an error.
  abbrev pub settle : Draft → Draft
  settle d = if any d.issues is_error then (record d { actions = [] }) else d

  -- `_plan_placements` with the factory's next ordinal; its result is the draft.
  unfoldable pub plan_placements : ℕ → Result Draft
  plan_placements ordinal =
      and_then (place_all c.profile.placements (fresh_draft ordinal))
        λ d. ok (settle (release_all (sort ownership_leb c.owners) d))
