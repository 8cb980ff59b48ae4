-- ===== src/Sync/Engine/Execute.antt =====
-- `_update_ownership` and `_execute_or_resume`.
pub mod Writes
use worshiptool_churchtools.Prelude.{
  String, Bool, true, false, not, Option, none, some, List, [], ◌∷◌, if◌then◌else◌,
}
use worshiptool_churchtools.Sync.Errors.{Result, ok, raise, Raised, SyncError}
use worshiptool_churchtools.Sync.Models.{
  ActionKind, ActionStatus, Ownership, Payload, PlannedAction, ActionResult, empty_result,
  ActionError, ActionExecution,
}
use worshiptool_churchtools.Sync.Platform.{Platform}
use worshiptool_churchtools.Sync.Engine.Calls.{
  Call, Ports, Action, pure, ◌>>=◌, ◌>>◌, handle, perform, lift, resources_of, set_resources, World,
}
use worshiptool_churchtools.Sync.Engine.Status.{or_option, restore_resources}
use worshiptool_churchtools.Sync.Engine.Actions.{
  required, ensure_remote_lease, apply_action, verify_action,
}

-- `str(result.get("agenda_item_id") or payload["agenda_item_id"])`
abbrev item_of : ActionResult → Payload → Result String
item_of result payload = required (or_option result.agenda_item_id payload.agenda_item_id)

-- The error that an exception is recorded as.
abbrev pub error_of : Raised → ActionError
error_of (Raised.sync e) = ActionError.provider_error e
error_of Raised.other = ActionError.internal

abbrev pub execution :
    PlannedAction → ActionStatus → ActionResult → Option ActionError → ActionExecution
execution action status result error = record {
  action_id = action.id;
  status = status;
  result = result;
  error = error;
}

module _ (p : Platform) (ports : Ports) where
  abbrev pub finished : ActionExecution → Action (Unit {0})
  finished e = perform ports.done (Call.action_finished e)

  unfoldable pub unbind : Payload → Action (Unit {0})
  unbind payload = do
    profile_id ← lift (required payload.profile_id)
    event_id ← lift (required payload.target_event_id)
    item_id ← lift (required payload.agenda_item_id)
    perform ports.done (Call.unbind_ownership profile_id event_id item_id)

  unfoldable pub bind : Payload → ActionResult → Action (Unit {0})
  bind payload result = do
    item_id ← lift (item_of result payload)
    profile_id ← lift (required payload.profile_id)
    event_id ← lift (required payload.target_event_id)
    source_key ← lift (required payload.source_key)
    placement_id ← lift (required payload.placement_id)
    perform ports.done (
        Call.bind_ownership (record {
          profile_id = profile_id;
          target_event_id = event_id;
          agenda_item_id = item_id;
          source_key = source_key;
          placement_id = placement_id;
          agenda_fingerprint = result.agenda_fingerprint;
          target_song_id = result.target_song_id;
          arrangement_id = result.arrangement_id;
        }))

  -- `_update_ownership`
  unfoldable pub update_kind : Payload → ActionResult → ActionKind → Action (Unit {0})
  unfolding bind unbind
  update_kind payload result ActionKind.delete_owned_item = unbind payload
  update_kind payload result ActionKind.noop =
      if payload.cleanup_only
      then unbind payload
      else if payload.already_owned
      then bind payload result
      else pure tt
  update_kind payload result ActionKind.insert_item = bind payload result
  update_kind payload result ActionKind.replace_item = bind payload result
  update_kind payload result _ = pure tt

  unfoldable pub update_ownership : PlannedAction → ActionResult → Action (Unit {0})
  unfolding update_kind
  update_ownership action result = update_kind action.payload result action.kind

  -- The end of both paths: the resources, and then the ownership.
  unfoldable pub settle : PlannedAction → ActionResult → Action ActionExecution
  settle action result = do
    resources ← resources_of
    _ ← set_resources (restore_resources action result resources)
    _ ← ensure_remote_lease p ports
    _ ← update_ownership action result
    pure (execution action ActionStatus.verified result none)

  -- A row that is verified is verified again.
  unfoldable pub reverify : PlannedAction → ActionResult → Action ActionExecution
  reverify action result = do
    verified ← verify_action p ports action result
    _ ← ensure_remote_lease p ports
    settle action verified

  -- A row that is applied, or one that was applied now, is verified and recorded.
  unfoldable pub finish_applied : PlannedAction → ActionResult → Action ActionExecution
  finish_applied action result = do
    verified ← verify_action p ports action result
    _ ← ensure_remote_lease p ports
    _ ← finished (execution action ActionStatus.verified verified none)
    settle action verified

  -- An action without a row, or with one that was only planned.
  unfoldable pub run_action : PlannedAction → Action ActionExecution
  run_action action = do
    _ ← perform ports.done (Call.action_started action)
    result ← apply_action p ports action
    _ ← ensure_remote_lease p ports
    _ ← finished (execution action ActionStatus.applied result none)
    finish_applied action result

  -- By the status of the row.
  unfoldable pub resume : PlannedAction → ActionExecution → ActionStatus → Action ActionExecution
  resume action previous ActionStatus.verified = reverify action previous.result
  resume action previous ActionStatus.failed = pure previous
  resume action previous ActionStatus.skipped = pure previous
  resume action previous ActionStatus.applied = finish_applied action previous.result
  resume action previous ActionStatus.planned = run_action action

  unfoldable pub attempt : PlannedAction → Option ActionExecution → Action ActionExecution
  unfolding resume
  attempt action none = run_action action
  attempt action (some previous) = resume action previous previous.status

  -- The `except` clauses, which record the failure.
  unfoldable pub record_failure : PlannedAction → Raised → Action ActionExecution
  record_failure action e = do
    let failure = execution action ActionStatus.failed empty_result (some (error_of e))
    _ ← finished failure
    pure failure

  -- `_execute_or_resume`
  unfoldable pub execute_or_resume : PlannedAction → Option ActionExecution → Action ActionExecution
  execute_or_resume action previous = handle (attempt action previous) (record_failure action)
