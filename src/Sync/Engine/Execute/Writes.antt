-- ===== src/Sync/Engine/Execute/Writes.antt =====
-- The writes of one action.
use worshiptool_churchtools.Prelude.{◌+◌, ◌≤◌, ◌≡◌, Bool, true, false, Option, none, some, arith}
use worshiptool_churchtools.Sync.Errors.{Raised, concurrent_modification_error}
use worshiptool_churchtools.Sync.Models.{
  ActionKind, ActionStatus, PlannedAction, Payload, ActionResult, ActionExecution,
}
use worshiptool_churchtools.Sync.Platform.{Platform}
use worshiptool_churchtools.Sync.Engine.Calls.{Ports, World, writes, fail, pure}
use worshiptool_churchtools.Sync.Engine.Budget.{
  Budget, Budget-bound, Budget-pure, Budget-fail, Budget-test, Budget-write, Budget-handle,
  Budget-more, quiet, Loud-bind,
}
use worshiptool_churchtools.Sync.Engine.Actions.{
  ensure_remote_lease, apply_action, apply_kind, verify_action, verify_kind, verify_on_agenda,
}
use worshiptool_churchtools.Sync.Engine.Execute.{
  bind, unbind, update_kind, resume, update_ownership, settle, reverify, finish_applied, run_action,
  attempt, record_failure, execute_or_resume,
}

-- The status of a row for which nothing is written again.
abbrev pub is_started : ActionStatus → Bool
is_started ActionStatus.planned = false
is_started _ = true

abbrev pub is_resumed : Option ActionExecution → Bool
is_resumed none = false
is_resumed (some previous) = is_started previous.status

module _ (p : Platform) (ports : Ports) where
  pub Budget-ensure : Budget 0 (ensure_remote_lease p ports)
  unfolding ensure_remote_lease fail pure
  Budget-ensure =
      Budget-test (λ w. ports.lease_lost w.calls)
        (Budget-fail (Raised.sync concurrent_modification_error)) (Budget-pure tt)

  Budget-unbind : (payload : Payload) → Budget 0 (unbind p ports payload)
  unfolding unbind
  Budget-unbind payload = search quiet

  Budget-verify_on_agenda :
      (action : PlannedAction) (result : ActionResult)
      → Budget 0 (verify_on_agenda p ports action result)
  unfolding verify_on_agenda
  Budget-verify_on_agenda action result = search quiet

  Budget-verify_kind :
      (action : PlannedAction) (result : ActionResult) (kind : ActionKind)
      → Budget 0 (verify_kind p ports action result kind)
  unfolding verify_kind
  Budget-verify_kind action result ActionKind.create_song = search quiet
  Budget-verify_kind action result ActionKind.create_arrangement = search quiet
  Budget-verify_kind action result ActionKind.noop = search (quiet, Budget-verify_on_agenda)
  Budget-verify_kind action result ActionKind.insert_item = Budget-verify_on_agenda action result
  Budget-verify_kind action result ActionKind.replace_item = Budget-verify_on_agenda action result
  Budget-verify_kind action result ActionKind.delete_owned_item =
      Budget-verify_on_agenda action result

  Budget-verify_action :
      (action : PlannedAction) (result : ActionResult)
      → Budget 0 (verify_action p ports action result)
  unfolding verify_action
  Budget-verify_action action result = Budget-verify_kind action result action.kind

  Budget-bind_ownership :
      (payload : Payload) (result : ActionResult) → Budget 0 (bind p ports payload result)
  unfolding bind
  Budget-bind_ownership payload result = search quiet depth 12

  Budget-update_kind :
      (payload : Payload) (result : ActionResult) (kind : ActionKind)
      → Budget 0 (update_kind p ports payload result kind)
  unfolding update_kind
  Budget-update_kind payload result ActionKind.create_song = search quiet
  Budget-update_kind payload result ActionKind.create_arrangement = search quiet
  Budget-update_kind payload result ActionKind.noop =
      search (quiet, Budget-unbind, Budget-bind_ownership)
  Budget-update_kind payload result ActionKind.insert_item = Budget-bind_ownership payload result
  Budget-update_kind payload result ActionKind.replace_item = Budget-bind_ownership payload result
  Budget-update_kind payload result ActionKind.delete_owned_item = Budget-unbind payload

  Budget-update_ownership :
      (action : PlannedAction) (result : ActionResult)
      → Budget 0 (update_ownership p ports action result)
  unfolding update_ownership
  Budget-update_ownership action result = Budget-update_kind action.payload result action.kind

  Budget-settle :
      (action : PlannedAction) (result : ActionResult) → Budget 0 (settle p ports action result)
  unfolding settle
  Budget-settle action result = search (quiet, Budget-ensure, Budget-update_ownership)

  Budget-reverify :
      (action : PlannedAction) (result : ActionResult) → Budget 0 (reverify p ports action result)
  unfolding reverify
  Budget-reverify action result = search (quiet, Budget-ensure, Budget-verify_action, Budget-settle)

  Budget-finish_applied :
      (action : PlannedAction) (result : ActionResult)
      → Budget 0 (finish_applied p ports action result)
  unfolding finish_applied
  Budget-finish_applied action result =
      search (quiet, Budget-ensure, Budget-verify_action, Budget-settle)

  Budget-resume :
      (action : PlannedAction) (previous : ActionExecution) (status : ActionStatus)
      → is_started status ≡ true
      → Budget 0 (resume p ports action previous status)
  unfolding resume
  Budget-resume action previous ActionStatus.planned h = cc
  Budget-resume action previous ActionStatus.applied h =
      Budget-finish_applied action previous.result
  Budget-resume action previous ActionStatus.verified h = Budget-reverify action previous.result
  Budget-resume action previous ActionStatus.failed h = Budget-pure previous
  Budget-resume action previous ActionStatus.skipped h = Budget-pure previous

  Budget-apply_kind :
      (action : PlannedAction) (kind : ActionKind) → Budget 1 (apply_kind p ports action kind)
  unfolding apply_kind
  Budget-apply_kind action ActionKind.create_song = search (quiet, Budget-write, Loud-bind) depth 14
  Budget-apply_kind action ActionKind.create_arrangement =
      search (quiet, Budget-write, Loud-bind) depth 14
  Budget-apply_kind action ActionKind.noop = Budget-more (omega arith) (Budget-pure _)
  Budget-apply_kind action ActionKind.insert_item = search (quiet, Budget-write, Loud-bind) depth 14
  Budget-apply_kind action ActionKind.replace_item =
      search (quiet, Budget-write, Loud-bind) depth 14
  Budget-apply_kind action ActionKind.delete_owned_item =
      search (quiet, Budget-write, Loud-bind) depth 14

  Budget-apply_action : (action : PlannedAction) → Budget 1 (apply_action p ports action)
  unfolding apply_action
  Budget-apply_action action = Budget-apply_kind action action.kind

  Budget-run_action : (action : PlannedAction) → Budget 1 (run_action p ports action)
  unfolding run_action
  Budget-run_action action =
      search (quiet, Loud-bind, Budget-apply_action, Budget-ensure, Budget-finish_applied) depth 14

  Budget-resume_once :
      (action : PlannedAction) (previous : ActionExecution) (status : ActionStatus)
      → Budget 1 (resume p ports action previous status)
  unfolding resume
  Budget-resume_once action previous ActionStatus.planned = Budget-run_action action
  Budget-resume_once action previous ActionStatus.applied =
      Budget-more (omega arith) (Budget-finish_applied action previous.result)
  Budget-resume_once action previous ActionStatus.verified =
      Budget-more (omega arith) (Budget-reverify action previous.result)
  Budget-resume_once action previous ActionStatus.failed =
      Budget-more (omega arith) (Budget-pure previous)
  Budget-resume_once action previous ActionStatus.skipped =
      Budget-more (omega arith) (Budget-pure previous)

  Budget-attempt :
      (action : PlannedAction) (previous : Option ActionExecution)
      → Budget 1 (attempt p ports action previous)
  unfolding attempt
  Budget-attempt action none = Budget-run_action action
  Budget-attempt action (some previous) = Budget-resume_once action previous previous.status

  Budget-attempt_resumed :
      (action : PlannedAction) (previous : Option ActionExecution)
      → is_resumed previous ≡ true
      → Budget 0 (attempt p ports action previous)
  unfolding attempt
  Budget-attempt_resumed action none h = cc
  Budget-attempt_resumed action (some previous) h = Budget-resume action previous previous.status h

  Budget-record_failure :
      (action : PlannedAction) (e : Raised) → Budget 0 (record_failure p ports action e)
  unfolding record_failure
  Budget-record_failure action e = search quiet

  pub Budget-execute :
      (action : PlannedAction) (previous : Option ActionExecution)
      → Budget 1 (execute_or_resume p ports action previous)
  unfolding execute_or_resume
  Budget-execute action previous =
      Budget-handle (Budget-attempt action previous) (Budget-record_failure action)

  pub Budget-execute_resumed :
      (action : PlannedAction) (previous : Option ActionExecution)
      → is_resumed previous ≡ true
      → Budget 0 (execute_or_resume p ports action previous)
  unfolding execute_or_resume
  Budget-execute_resumed action previous h =
      Budget-handle (Budget-attempt_resumed action previous h) (Budget-record_failure action)

  -- An action of which a row says that it was applied, verified, failed or skipped is not written
  -- to the target again, whatever the provider and the repository answer.
  pub execute_or_resume-writes_nothing :
      (action : PlannedAction) (previous : Option ActionExecution) (w : World)
      → is_resumed previous ≡ true
      → writes (execute_or_resume p ports action previous w).1 ≤ writes w
  execute_or_resume-writes_nothing action previous w h =
      ground (arith, Budget-bound (Budget-execute_resumed action previous h) w)

  -- One attempt at an action writes to the target at most once, whatever the ports answer, also
  -- where it ends in a failure.
  pub execute_or_resume-writes_once :
      (action : PlannedAction) (previous : Option ActionExecution) (w : World)
      → writes (execute_or_resume p ports action previous w).1 ≤ writes w + 1
  execute_or_resume-writes_once action previous w = Budget-bound (Budget-execute action previous) w
