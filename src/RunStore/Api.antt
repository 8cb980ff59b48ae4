-- ===== src/RunStore/Api.antt =====
-- The route `update_workspace` of backend/app/routers/workspaces.py, as far as it archives the run's
-- workspace or takes it up again, and the retention of runs of backend/app/outbox.py.
use worshiptool_churchtools.Prelude.{
  ℕ, String, Bool, true, false, not, Option, none, some, ◌==◌, ◌&&◌, if◌then◌else◌, select, ltb,
  Dict,
}
use worshiptool_churchtools.Sync.Models.{RunStatus}
use worshiptool_churchtools.RunStore.State.{
  RunError, Run, ActionRow, Store, is_active, is_queued, is_running,
}

-- The `UPDATE` of the workspace's queued runs.
abbrev pub archived_run : ℕ → Run → Run
archived_run now run =
    if is_queued run.status
    then (record run {
      status = RunStatus.canceled;
      finished_at = some now;
      error = some RunError.workspace_archived;
    })
    else run

abbrev pub archived_run_of : ℕ → Option Run → Option Run
archived_run_of now none = none
archived_run_of now (some run) = some (archived_run now run)

abbrev pub has_running : Option Run → Bool
has_running none = false
has_running (some run) = is_running run.status

-- Archiving; `false` is the answer 409 where a run of the workspace is running.
unfoldable pub archive_workspace : ℕ → Store → Bool × Store
archive_workspace now s = elim s.workspace_archived [
  | none ↦ (false, s)
  | some archived ↦
      if archived
      then (true, s)
      else if has_running s.run
      then (false, s)
      else (true, record s { workspace_archived = some true; run = archived_run_of now s.run })
]

-- `archived` is set to false; the profiles stay disabled.
unfoldable pub unarchive_workspace : Store → Store
unarchive_workspace s = elim s.workspace_archived [
  | none ↦ s
  | some archived ↦ record s { workspace_archived = some false }
]

-- `terminal_run_ids`
abbrev pub is_terminal_run : ℕ → Run → Bool
is_terminal_run cutoff run = not (is_active run.status) && ltb run.created_at cutoff

abbrev pub without_run : String → Dict ActionRow → Dict ActionRow
without_run run_id rows =
    select (λ (entry : String × ActionRow). not (entry.1.run_id == run_id)) rows

-- The statements of `RetentionService.cleanup` on the run and its actions.
unfoldable pub cleanup_run : ℕ → Store → Store
cleanup_run cutoff s = elim s.run [
  | none ↦ s
  | some run ↦
      if is_terminal_run cutoff run
      then (record s { run = none; actions = without_run run.id s.actions })
      else s
]
