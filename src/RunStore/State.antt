-- ===== src/RunStore/State.antt =====
-- The rows, the worker session and the fence `_active_leased_run`. An instant is a number of
-- microseconds; the instants that one transaction reads from the clock are one value.
use Prim.Native.String.{[], ◌∷◌}
use worshiptool_churchtools.Prelude.{
  ℕ, zero, suc, ◌*◌, String, Bool, true, false, Option, none, some, List, ltb, ◌==◌, ◌&&◌,
  if◌then◌else◌, Dict,
}
use worshiptool_churchtools.Sync.Errors.{
  SyncError, Raised, Result, ok, raise, concurrent_modification_error,
}
use worshiptool_churchtools.Sync.Models.{
  ProfileConfig, RunStatus, ActionKind, ActionStatus, ActionResult, ActionError, Payload, SyncPlan,
  EventSyncCheckpoint,
}

-- `value[:n]`
unfoldable pub truncate : ℕ → String → String
truncate zero s = []
truncate (suc n) [] = []
truncate (suc n) (c ∷ s) = c ∷ truncate n s

abbrev pub seconds : ℕ → ℕ
seconds n = n * 1000000

pub data RunError : Type 0 where
  configuration configuration_revision_changed invalid_profile_configuration : RunError
  workspace_archived internal invalid_schedule : RunError
  sync_error : SyncError → RunError

-- `notifications_fanned_out_at`, which only the notifications read and write, is left out.
pub record Run : Type 0 where
  pub id : String
  pub workspace_id : String
  pub config_revision : ℕ
  pub status : RunStatus
  pub dry_run : Bool
  pub created_at : ℕ
  pub started_at : Option ℕ
  pub finished_at : Option ℕ
  pub planned_at : Option ℕ
  pub dispatch_attempted_at : Option ℕ
  pub lease_owner : Option String
  pub lease_expires_at : Option ℕ
  pub error : Option RunError
  -- `plan_json` of schema version 2: the fingerprint and the plan
  pub plan : Option (String × SyncPlan)

pub record ProfileRow : Type 0 where
  pub id : String
  pub workspace_id : String
  pub source_connection_id : String
  pub target_connection_id : String
  pub revision : ℕ
  -- the other columns, as `_profile_config` converts them; `none` where a conversion of one of them
  -- raises a `TypeError` or a `ValueError`
  pub config : Option ProfileConfig

pub record ActionRow : Type 0 where
  pub run_id : String
  pub event_id : Option String
  pub source_id : Option String
  pub kind : ActionKind
  pub status : ActionStatus
  pub ordinal : ℕ
  pub payload : Payload
  pub result : ActionResult
  pub error : Option ActionError
  pub applied_at : Option ℕ
  pub verified_at : Option ℕ
  pub target_id : Option String

pub record RemoteBinding : Type 0 where
  pub workspace_id : String
  pub profile_id : String
  pub target_connection_id : String
  pub target_event_id : String
  pub agenda_item_id : String
  pub source_key : String
  pub placement_id : String
  pub agenda_fingerprint : Option String
  pub target_song_id : Option String
  pub arrangement_id : Option String

pub record Store : Type 0 where
  -- whether the run's workspace is archived; `none` if its row is gone
  pub workspace_archived : Option Bool
  pub run : Option Run
  pub profile : Option ProfileRow
  pub actions : Dict ActionRow
  pub bindings : List RemoteBinding
  pub checkpoints : List EventSyncCheckpoint

-- A transaction body: the value and the new store, or an exception.
abbrev pub Tx : Type 0 → Type 0
Tx A = Store → Result (A × Store)

-- `_worker_session`: commit on return, roll back when the body raises.
unfoldable pub worker_session : {A : Type 0} → Tx A → Store → Result A × Store
worker_session body s = elim (body s) [ ok (a, s') ↦ (ok a, s') | raise e ↦ (raise e, s) ]

abbrev pub conflict {ℓ} : {A : Type ℓ} → Result A
conflict = raise (Raised.sync concurrent_modification_error)

abbrev pub is_queued : RunStatus → Bool
is_queued RunStatus.queued = true
is_queued _ = false

abbrev pub is_running : RunStatus → Bool
is_running RunStatus.running = true
is_running _ = false

-- `_ACTIVE_RUN_STATUSES`
abbrev pub is_active : RunStatus → Bool
is_active RunStatus.queued = true
is_active RunStatus.running = true
is_active _ = false

-- `lease_expires_at IS NOT NULL AND lease_expires_at > now`
abbrev pub is_live : ℕ → Option ℕ → Bool
is_live now none = false
is_live now (some t) = ltb now t

-- `lease_expires_at IS NOT NULL AND lease_expires_at < now`
abbrev pub is_over : ℕ → Option ℕ → Bool
is_over now none = false
is_over now (some t) = ltb t now

abbrev pub owned_by : Option String → String → Bool
owned_by none token = false
owned_by (some owner) token = owner == truncate 200 token

-- The `WHERE` of the fence and of `_renew_lease`.
unfoldable pub holds_lease : ℕ → String → Run → Bool
holds_lease now token run =
    is_running run.status && owned_by run.lease_owner token && is_live now run.lease_expires_at

unfoldable pub active_leased_run : ℕ → String → Store → Result Run
active_leased_run now token s = elim s.run [
  | none ↦ conflict
  | some run ↦ if holds_lease now token run then ok run else conflict
]
