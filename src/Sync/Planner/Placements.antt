-- ===== src/Sync/Planner/Placements.antt =====
-- `_plan_placements` and `_anchor_matches`.
use worshiptool_churchtools.Prelude.{
  ℕ, zero, suc, ◌+◌, String, Bool, true, false, not, Option, none, some, List, [], ◌∷◌, ◌++◌, map,
  ◌==◌, ◌&&◌, ◌||◌, if◌then◌else◌, get_elem?, take, drop, any, member, nat_eq, truthy, opt_eq, Dict,
  get,
}
use worshiptool_churchtools.Sync.Errors.{Raised, Result, ok, raise}
use worshiptool_churchtools.Sync.Models.{
  SourceEvent, AgendaItem, AgendaAnchor, PlacementRule, ProfileConfig, Ownership, ActionKind,
  IssueCode, IssueSeverity, PlanIssue, Payload, PlannedAction, error_issue, empty_payload,
}
use worshiptool_churchtools.Sync.Platform.{Platform}
use worshiptool_churchtools.Sync.Matching.Text.{normalize_text}
use worshiptool_churchtools.Sync.Planner.Factory.{
  SongResource, make, keyed, show, dependencies, present, with_resource,
}

-- `range(start, start + n)`
unfoldable pub range_from : ℕ → ℕ → List ℕ
range_from start zero = []
range_from start (suc n) = start ∷ range_from (suc start) n

-- `tuple(range(n))[start:end]`
unfoldable pub slice : ℕ → ℕ → Option ℕ → List ℕ
unfolding range_from
slice n start none = drop start (range_from 0 n)
slice n start (some end) = drop start (take end (range_from 0 n))

abbrev pub member_nat : ℕ → List ℕ → Bool
member_nat n ns = any ns (λ m. nat_eq m n)

abbrev pub or_empty : Option String → String
or_empty none = ""
or_empty (some s) = s

module _ (p : Platform) where
  -- `_anchor_matches`
  unfoldable pub anchor_matches : AgendaAnchor → AgendaItem → Bool
  anchor_matches anchor item =
      (truthy anchor.item_id || truthy anchor.item_type || truthy anchor.title)
      && elim anchor.item_id [ none ↦ true | some id ↦ id == item.id ]
      && elim anchor.item_type [ none ↦ true | some type ↦ type == item.type ]
      && elim anchor.title [
        | none ↦ true
        | some title ↦ normalize_text p title == normalize_text p (or_empty item.title)
      ]

-- The index of the first element that passes.
unfoldable pub index_of : (AgendaItem → Bool) → List AgendaItem → ℕ
index_of test [] = 0
index_of test (item ∷ items) = let rest = index_of test items in if test item then 0 else suc rest

-- The `while` loop over reserved items: `rest` are the items from the cursor on.
unfoldable pub skip_reserved : List String → List AgendaItem → ℕ → ℕ
skip_reserved reserved [] cursor = cursor
skip_reserved reserved (item ∷ rest) cursor =
    let later = skip_reserved reserved rest (suc cursor) in
    if member item.id reserved then later else cursor

-- `ownership_by_item.get(id)`: the last ownership of an item wins in that `dict`.
unfoldable pub owner_of : String → List Ownership → Option Ownership
owner_of id [] = none
owner_of id (o ∷ os) = elim (owner_of id os) [
  | some later ↦ some later
  | none ↦ if o.agenda_item_id == id then some o else none
]

-- The lists and sets that the loops fill, and the factory's next ordinal.
pub record Draft : Type 0 where
  pub actions : List PlannedAction
  pub issues : List PlanIssue
  pub used : List ℕ
  pub reserved : List String
  pub desired : List String
  pub ordinal : ℕ

abbrev pub add_issue : PlanIssue → Draft → Draft
add_issue issue d = record d { issues = d.issues ++ issue ∷ [] }

abbrev pub warning : IssueCode → PlanIssue
warning code = record { code = code; severity = IssueSeverity.warning }

-- Where the next song of a placement goes.
pub record Cursor : Type 0 where
  pub position : ℕ
  pub last_item_id : Option String
  pub last_item_key : Option String

-- What is fixed while one event is planned.
pub record Setting : Type 0 where
  pub platform : Platform
  pub run_id : String
  pub profile : ProfileConfig
  pub source_event : SourceEvent
  pub target_event_id : String
  pub items : List AgendaItem
  pub owners : List Ownership
  pub resources : Dict SongResource
  pub event_plan_id : String

module _ (c : Setting) where
  abbrev pub add_action : ActionKind → String → Payload → List String → Draft → Draft
  add_action kind identity payload deps d = record d {
    actions =
        d.actions
        ++ make c.platform c.run_id d.ordinal kind identity payload (some c.event_plan_id) deps
          ∷ [];
    ordinal = d.ordinal + 1;
  }

  abbrev pub base_payload : PlacementRule → String → SongResource → Payload
  base_payload placement source_key resource = with_resource resource (record empty_payload {
    profile_id = some c.profile.id;
    target_event_id = some c.target_event_id;
    source_key = some source_key;
    placement_id = some placement.id;
    defaults = c.profile.agenda_item_defaults;
  })

  abbrev pub owned_by_other : AgendaItem → Bool
  owned_by_other item = elim (owner_of item.id c.owners) [
    | none ↦ false
    | some o ↦ not (o.profile_id == c.profile.id)
  ]

  abbrev pub owned_here : AgendaItem → Bool
  owned_here item = elim (owner_of item.id c.owners) [
    | none ↦ false
    | some o ↦ o.profile_id == c.profile.id
  ]

  -- `current.song_id == resource.song_id` where both sides must be there
  abbrev pub holds : AgendaItem → SongResource → Bool
  holds item resource = elim resource.song_id [
    | none ↦ false
    | some song ↦ elim resource.arrangement_id [
      | none ↦ false
      | some arrangement ↦
          opt_eq item.song_id (some song) && opt_eq item.arrangement_id (some arrangement)
    ]
  ]

  -- An existing song item becomes the song's slot.
  unfoldable pub take_slot : PlacementRule → String → SongResource → AgendaItem → Draft → Draft
  take_slot placement source_key resource item d =
      add_action (if holds item resource then ActionKind.noop else ActionKind.replace_item)
        source_key
        (record (base_payload placement source_key resource) {
          agenda_item_id = some item.id;
          already_owned = owned_here item;
        })
        (dependencies resource) (record d { reserved = item.id ∷ d.reserved })

  -- The neighbour that an insertion names.
  abbrev pub neighbour : Option AgendaItem → Cursor → Payload → Payload
  neighbour (some item) at payload = record payload { before_item_id = some item.id }
  neighbour none at payload =
      if truthy at.last_item_key
      then (record payload { after_item_key = at.last_item_key })
      else if truthy at.last_item_id
      then (record payload { after_item_id = at.last_item_id })
      else payload

  unfoldable pub insert_song :
      PlacementRule → String → SongResource → Option AgendaItem → Cursor → Draft → Draft
  insert_song placement source_key resource current at d =
      let item_key = keyed "agenda" (keyed c.target_event_id source_key) in
      add_action ActionKind.insert_item source_key
        (neighbour current at (record (base_payload placement source_key resource) {
          resource_key = some item_key;
          initial_agenda_item_ids = map (λ (item : AgendaItem). item.id) c.items;
        }))
        (dependencies resource ++ present at.last_item_key) d

  abbrev pub is_song : AgendaItem → Bool
  is_song item = item.type == "song"

  -- The slot of a song: a song item to take, or a place to insert.
  pub data Slot : Type 0 where
    song_item : AgendaItem → Slot
    foreign : Slot
    gap : Option AgendaItem → Slot

  abbrev pub slot_at : Option AgendaItem → Slot
  slot_at none = gap none
  slot_at (some item) =
      if is_song item
      then (if owned_by_other item then foreign else song_item item)
      else gap (some item)

  -- A song in its slot, with the cursor behind it; `none` is the `break` of the loop.
  unfoldable pub place_in :
      PlacementRule → String → SongResource → Draft → Cursor → Slot → Draft × Option Cursor
  unfolding take_slot insert_song
  place_in placement source_key resource d at foreign =
      (add_issue (error_issue IssueCode.agenda_item_owned_by_other_profile) d, none)
  place_in placement source_key resource d at (song_item item) = (
    take_slot placement source_key resource item d,
    some (record { position = at.position + 1; last_item_id = some item.id; last_item_key = none }),
  )
  place_in placement source_key resource d at (gap current) = (
    insert_song placement source_key resource current at d,
    some (record {
      position = at.position;
      last_item_id = none;
      last_item_key = some (keyed "agenda" (keyed c.target_event_id source_key));
    }),
  )

  -- The cursor behind the reserved items.
  unfoldable pub advance : Draft → Cursor → Cursor
  advance d at = record at {
    position = skip_reserved d.reserved (drop at.position c.items) at.position;
  }

  -- One round of the loop over the songs of a placement.
  unfoldable pub place_song :
      PlacementRule → String → SongResource → Draft → Cursor → Draft × Option Cursor
  unfolding advance
  place_song placement source_key resource d at =
      let at' = advance d at in
      place_in placement source_key resource (record d { desired = source_key ∷ d.desired }) at'
        (slot_at (get_elem? c.items at'.position))

  -- `resources[source_event.song_ids[index]]` with its song id.
  unfoldable pub resource_at : ℕ → Option (String × SongResource)
  resource_at index = elim (get_elem? c.source_event.song_ids index) [
    | none ↦ none
    | some song_id ↦ elim (get song_id c.resources) [
      | none ↦ none
      | some resource ↦ some (song_id, resource)
    ]
  ]

  -- A missing resource is a `KeyError`.
  abbrev pub with_song :
      Option (String × SongResource) → (String → SongResource → Result Draft) → Result Draft
  with_song none k = raise Raised.other
  with_song (some (song_id, resource)) k = k song_id resource

  abbrev pub unless_broken : Draft × Option Cursor → (Draft → Cursor → Result Draft) → Result Draft
  unless_broken (d, none) k = ok d
  unless_broken (d, some at) k = k d at

  -- The loop over the songs of a placement.
  unfoldable pub place_songs : PlacementRule → List ℕ → Draft → Cursor → Result Draft
  place_songs placement [] d at = ok d
  place_songs placement (index ∷ indexes) d at = with_song (resource_at index) λ song_id resource.
      unless_broken
        (place_song placement (keyed placement.id (keyed (show index) song_id)) resource d at)
        (place_songs placement indexes)
