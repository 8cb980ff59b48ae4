-- ===== src/Dispatch/Start.antt =====
-- `start_run`. The lock of the workspace and the profile makes it one step.
use worshiptool_churchtools.Prelude.{
  ℕ, ◌+◌, ◌-◌, ◌/◌, String, Bool, true, false, not, Option, none, some, List, [], ◌∷◌, ◌++◌,
  if◌then◌else◌, ◌&&◌, ◌==◌, is_some, ltb, leb, max, find, select, sort,
}
use worshiptool_churchtools.Sync.Models.{RunStatus}
use worshiptool_churchtools.RunStore.State.{seconds}
use worshiptool_churchtools.Dispatch.State.{
  Store, SyncProfile, SyncRun, SyncTrigger, Workspace, is_active_of,
}

-- The `ProblemException`s, by their codes.
pub data Problem : Type 0 where
  not_found workspace_archived : Problem
  run_already_active : String → Problem
  manual_run_cooldown : ℕ → Problem

pub data Started : Type 0 where
  started : SyncRun → Started
  problem : Problem → Started

abbrev pub has_workspace_id : String → Workspace → Bool
has_workspace_id id workspace = workspace.id == id

abbrev pub is_profile : String → String → SyncProfile → Bool
is_profile id workspace_id profile = profile.id == id && profile.workspace_id == workspace_id

abbrev pub is_manual : SyncRun → Bool
is_manual run = elim run.trigger [ SyncTrigger.manual ↦ true | SyncTrigger.scheduled ↦ false ]

abbrev pub is_manual_of : String → SyncRun → Bool
is_manual_of profile_id run = run.profile_id == profile_id && is_manual run && not run.dry_run

-- `ORDER BY created_at DESC`
abbrev pub newest_first : SyncRun → SyncRun → Bool
newest_first a b = leb b.created_at a.created_at

abbrev pub newest : List SyncRun → Option SyncRun
newest [] = none
newest (run ∷ runs) = some run

unfoldable pub last_manual : String → ℕ → Bool → List SyncRun → Option SyncRun
last_manual profile_id cooldown dry_run runs =
    if not dry_run && ltb 0 cooldown
    then newest (sort newest_first (select (is_manual_of profile_id) runs))
    else none

module _ (new_id : List SyncRun → String) (now : ℕ) (dry_run : Bool) where
  abbrev pub manual_run : SyncProfile → Store → SyncRun
  manual_run profile s = record {
    id = new_id s.runs;
    workspace_id = profile.workspace_id;
    profile_id = profile.id;
    config_revision = profile.revision;
    status = RunStatus.queued;
    trigger = SyncTrigger.manual;
    dry_run = dry_run;
    created_at = now;
    finished_at = none;
    dispatch_attempted_at = some now;
    lease_owner = none;
    lease_expires_at = none;
    error = none;
  }

  abbrev pub add_run : SyncProfile → Store → Started × Store
  add_run profile s = (
    Started.started (manual_run profile s),
    record s { runs = s.runs ++ manual_run profile s ∷ [] },
  )

  -- `max(1, int((retry_at - now).total_seconds()))`
  unfoldable pub after_cooldown : ℕ → SyncProfile → Store → Option SyncRun → Started × Store
  after_cooldown cooldown profile s none = add_run profile s
  after_cooldown cooldown profile s (some last) =
      let retry_at = last.created_at + seconds cooldown in
      if ltb now retry_at
      then (Started.problem (Problem.manual_run_cooldown (max 1 ((retry_at - now) / seconds 1))), s)
      else add_run profile s

  unfoldable pub without_active : Workspace → SyncProfile → Store → Option SyncRun → Started × Store
  unfolding after_cooldown last_manual
  without_active workspace profile s (some active) =
      (Started.problem (Problem.run_already_active active.id), s)
  without_active workspace profile s none =
      after_cooldown workspace.manual_run_cooldown_seconds profile s
        (last_manual profile.id workspace.manual_run_cooldown_seconds dry_run s.runs)

  unfoldable pub in_workspace : Workspace → Store → Option SyncProfile → Started × Store
  unfolding without_active
  in_workspace workspace s none = (Started.problem Problem.not_found, s)
  in_workspace workspace s (some profile) =
      without_active workspace profile s (find (is_active_of profile.id) s.runs)

  unfoldable pub start_in : String → Store → Option Workspace → Started × Store
  unfolding in_workspace
  start_in profile_id s none = (Started.problem Problem.not_found, s)
  start_in profile_id s (some workspace) =
      if is_some workspace.archived_at
      then (Started.problem Problem.workspace_archived, s)
      else in_workspace workspace s (find (is_profile profile_id workspace.id) s.profiles)

  -- `start_run` by an operator of a workspace
  unfoldable pub start_run : String → String → Store → Started × Store
  unfolding start_in
  start_run workspace_id profile_id s =
      start_in profile_id s (find (has_workspace_id workspace_id) s.workspaces)
