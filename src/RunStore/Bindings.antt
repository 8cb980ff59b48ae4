-- ===== src/RunStore/Bindings.antt =====
-- `_ownerships`, `_bind_ownership`, `_unbind_ownership`, `_event_sync_states` and
-- `_record_event_synced`.
use worshiptool_churchtools.Prelude.{
  ℕ, String, Bool, none, some, List, [], ◌∷◌, map, ◌==◌, ◌&&◌, if◌then◌else◌, select, any,
}
use worshiptool_churchtools.Sync.Errors.{Result, ok, raise}
use worshiptool_churchtools.Sync.Models.{Ownership, EventPlan, EventSyncCheckpoint}
use worshiptool_churchtools.RunStore.State.{
  ProfileRow, RemoteBinding, Store, Tx, conflict, active_leased_run,
}

-- The unique key of a binding: connection, event and agenda item.
abbrev pub same_item : String → String → String → RemoteBinding → Bool
same_item connection event item b =
    b.target_connection_id == connection && b.target_event_id == event && b.agenda_item_id == item

abbrev pub ownership_of : RemoteBinding → Ownership
ownership_of b = record {
  profile_id = b.profile_id;
  target_event_id = b.target_event_id;
  agenda_item_id = b.agenda_item_id;
  source_key = b.source_key;
  placement_id = b.placement_id;
  agenda_fingerprint = b.agenda_fingerprint;
  target_song_id = b.target_song_id;
  arrangement_id = b.arrangement_id;
}

-- The bindings of every profile on the connection and event of the profile.
unfoldable pub ownerships : String → Store → List Ownership
ownerships event s = elim s.profile [
  | none ↦ []
  | some profile ↦ map ownership_of (
      select
        (λ b. b.target_connection_id == profile.target_connection_id && b.target_event_id == event)
        s.bindings)
]

abbrev pub new_binding : ProfileRow → Ownership → RemoteBinding
new_binding profile o = record {
  workspace_id = profile.workspace_id;
  profile_id = profile.id;
  target_connection_id = profile.target_connection_id;
  target_event_id = o.target_event_id;
  agenda_item_id = o.agenda_item_id;
  source_key = o.source_key;
  placement_id = o.placement_id;
  agenda_fingerprint = o.agenda_fingerprint;
  target_song_id = o.target_song_id;
  arrangement_id = o.arrangement_id;
}

-- Insert the binding, or update the one of the same item; another profile's binding is a conflict.
unfoldable pub bind : ProfileRow → Ownership → List RemoteBinding → Result (List RemoteBinding)
bind profile o [] = ok (new_binding profile o ∷ [])
bind profile o (b ∷ bs) =
    let rest = bind profile o bs in
    if same_item profile.target_connection_id o.target_event_id o.agenda_item_id b
    then (if b.profile_id == profile.id then ok (new_binding profile o ∷ bs) else conflict)
    else elim rest [ ok bs' ↦ ok (b ∷ bs') | raise e ↦ raise e ]

-- A profile that is not the store's has disappeared: `db.get(SyncProfile, ownership.profile_id)`.
unfoldable pub bind_ownership : ℕ → Ownership → String → Tx (Unit {0})
unfolding bind
bind_ownership now o token s = elim (active_leased_run now token s) [
  | raise e ↦ raise e
  | ok run ↦ elim s.profile [
    | none ↦ conflict
    | some profile ↦
        if profile.id == o.profile_id
        then elim (bind profile o s.bindings) [
          | raise e ↦ raise e
          | ok bindings ↦ ok (tt, record s { bindings = bindings })
        ]
        else conflict
  ]
]

-- Delete the first binding of the item and the profile.
unfoldable pub unbind : String → String → String → List RemoteBinding → List RemoteBinding
unbind profile_id event item [] = []
unbind profile_id event item (b ∷ bs) =
    let rest = unbind profile_id event item bs in
    if b.profile_id == profile_id && b.target_event_id == event && b.agenda_item_id == item
    then bs
    else b ∷ rest

unfoldable pub unbind_ownership : ℕ → String → String → String → String → Tx (Unit {0})
unfolding unbind
unbind_ownership now profile_id event item token s = elim (active_leased_run now token s) [
  | raise e ↦ raise e
  | ok run ↦ ok (tt, record s { bindings = unbind profile_id event item s.bindings })
]

-- The checkpoints of this profile.
abbrev pub same_event : String → String → EventSyncCheckpoint → Bool
same_event source target c = c.source_event_id == source && c.target_event_id == target

unfoldable pub event_sync_states : List (String × String) → Store → List EventSyncCheckpoint
event_sync_states keys s = select (λ c. any keys (λ key. same_event key.0 key.1 c)) s.checkpoints

unfoldable pub save_checkpoint :
    EventSyncCheckpoint → List EventSyncCheckpoint → List EventSyncCheckpoint
save_checkpoint c [] = c ∷ []
save_checkpoint c (d ∷ ds) =
    let rest = save_checkpoint c ds in
    if same_event c.source_event_id c.target_event_id d then c ∷ ds else d ∷ rest

unfoldable pub record_event_synced : ℕ → EventPlan → String → Tx (Unit {0})
unfolding save_checkpoint
record_event_synced now event token s = elim event.target_event_id [
  | none ↦ ok (tt, s)
  | some target ↦ elim event.source_fingerprint [
    | none ↦ ok (tt, s)
    | some source_fingerprint ↦ elim event.config_fingerprint [
      | none ↦ ok (tt, s)
      | some config_fingerprint ↦ elim (active_leased_run now token s) [
        | raise e ↦ raise e
        | ok run ↦ ok (
          tt,
          record s {
            checkpoints =
                save_checkpoint
                  (record {
                    source_event_id = event.source_event_id;
                    target_event_id = target;
                    source_fingerprint = source_fingerprint;
                    config_fingerprint = config_fingerprint;
                  })
                  s.checkpoints;
          },
        )
      ]
    ]
  ]
]
