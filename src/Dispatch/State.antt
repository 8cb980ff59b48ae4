-- ===== src/Dispatch/State.antt =====
-- The rows of workspaces, profiles and runs that creating a run reads and writes.
use worshiptool_churchtools.Prelude.{
  ℕ, String, Bool, false, Option, none, some, List, ◌&&◌, ◌==◌, any,
}
use worshiptool_churchtools.Sync.Models.{RunStatus}
use worshiptool_churchtools.RunStore.State.{RunError, is_active}

pub data SyncTrigger : Type 0 where
  manual scheduled : SyncTrigger

pub record Workspace : Type 0 where
  pub id : String
  pub archived_at : Option ℕ
  pub manual_run_cooldown_seconds : ℕ

pub record SyncProfile : Type 0 where
  pub id : String
  pub workspace_id : String
  pub revision : ℕ
  pub enabled : Bool
  pub schedule_type : String
  pub interval_minutes : Option ℕ
  pub cron_expression : Option String
  pub target_timezone : String
  pub last_scheduled_at : Option ℕ
  pub next_scheduled_at : Option ℕ

pub record SyncRun : Type 0 where
  pub id : String
  pub workspace_id : String
  pub profile_id : String
  pub config_revision : ℕ
  pub status : RunStatus
  pub trigger : SyncTrigger
  pub dry_run : Bool
  pub created_at : ℕ
  pub finished_at : Option ℕ
  pub dispatch_attempted_at : Option ℕ
  pub lease_owner : Option String
  pub lease_expires_at : Option ℕ
  pub error : Option RunError

pub record Store : Type 0 where
  pub workspaces : List Workspace
  pub profiles : List SyncProfile
  pub runs : List SyncRun

-- An active run of a profile.
abbrev pub is_active_of : String → SyncRun → Bool
is_active_of profile_id run = run.profile_id == profile_id && is_active run.status

abbrev pub is_open : String → Workspace → Bool
is_open id workspace = elim workspace.archived_at [ none ↦ workspace.id == id | some at ↦ false ]

-- The join with a workspace that is not archived.
abbrev pub in_open_workspace : Store → String → Bool
in_open_workspace s workspace_id = any s.workspaces (is_open workspace_id)
