-- ===== src/Tests/Engine.antt =====
-- Runs against a provider that answers every call.
use worshiptool_churchtools.Sync.Matching.Text.{normalize_ccli, normalize_text}
use worshiptool_churchtools.Sync.Engine.Actions.{
  verify_action, has_named_arrangement, apply_action, verify_song, verify_on_agenda, verify_kind,
  ensure_remote_lease, apply_kind, verify_item,
}
use worshiptool_churchtools.Prelude.{
  count_if, ◌<◌, Option, ◌≡◌, refl, ◌+◌, ◌≤◌, refl, Bool, true, false, none, some, List, [], ◌∷◌,
  Dict,
}
use worshiptool_churchtools.Sync.Errors.{Result, ok, raise}
use worshiptool_churchtools.Sync.Engine.Reconcile.{
  reconcile_agenda_effect, candidate_of, accept_candidate, neighbour, item_after, item_before,
  reconcile_kind, reconcile_deletion, reconcile_song,
}
use worshiptool_churchtools.Sync.Engine.Status.{
  resolve, optional_resolve, is_problem, is_ready_event, restore_resources, final_status,
}
use worshiptool_churchtools.Sync.Engine.Reconcile.Claims.{IsClaim, reconcile_agenda_effect-IsClaim}
use worshiptool_churchtools.Sync.Models.{
  RunStatus, ActionStatus, ActionExecution, Agenda, AgendaItem, empty_result, ActionResult,
  sorted_items,
}
use worshiptool_churchtools.Sync.Planner.Events.{agenda_fingerprint}
use worshiptool_churchtools.Sync.Engine.Calls.{
  Call, Ports, World, writes, lift, resources_of, ◌>>=◌, pure, fail, perform, finally, handle,
  set_resources,
}
use worshiptool_churchtools.Sync.Engine.Execute.{
  execute_or_resume, attempt, run_action, record_failure, bind, update_ownership, unbind,
  finish_applied, update_kind, resume, reverify, settle,
}
use worshiptool_churchtools.Sync.Engine.Execute.Writes.{
  execute_or_resume-writes_nothing, execute_or_resume-writes_once,
}
use worshiptool_churchtools.Sync.Engine.Events.{
  guarded_step, apply_event, reconcile_step, continue, stop_with, step, apply_actions, renew_leases,
  dependent_step, differs_step, run_step, skip_remaining, still_leased, leased_step, known_step,
  conclude_by, conclude,
}
use worshiptool_churchtools.Sync.Engine.Events.Writes.{
  total_allowance, guarded_step-writes_nothing, apply_event-writes,
}
use worshiptool_churchtools.Sync.Engine.Plan.Success.{apply_plan-succeeded}
use worshiptool_churchtools.Sync.Engine.Plan.{
  apply_plan, apply_prepared, prepare_leased, apply_locked, prepare_locked, apply_events,
  apply_with, prepare_action, apply_by, prepare, apply_target, checkpoint, prepare_actions,
}
use worshiptool_churchtools.Sync.Engine.Plan.Writes.{plan_allowance, apply_plan-writes}
use worshiptool_churchtools.Tests.Samples.{
  insertion, event, sample_plan, platform, target_song, arrangement, heading, agenda,
}

-- Leases are granted and renewed, and nobody cancels.
abbrev answer_flag : List Call → Result Bool
answer_flag (Call.cancel_requested ∷ calls) = ok false
answer_flag _ = ok true

abbrev song_item : AgendaItem
song_item = record {
  id = "i2";
  position = 2;
  type = "song";
  title = none;
  song_id = some "sg1";
  arrangement_id = some "ar1";
}

abbrev filled : Agenda
filled = record { event_id = "t1"; items = heading ∷ song_item ∷ [] }

-- The agenda holds the song once it was inserted.
abbrev answer_agenda : List Call → Result Agenda
answer_agenda (Call.get_agenda id ∷ Call.renew_event_lease resource ∷ calls) = ok agenda
answer_agenda _ = ok filled

abbrev pub ports : Dict ActionExecution → Ports
ports prior = record {
  song = λ calls. ok target_song;
  arrangement = λ calls. ok arrangement;
  item = λ calls. ok song_item;
  agenda = answer_agenda;
  flag = answer_flag;
  executions = λ calls. ok prior;
  done = λ calls. ok tt;
  lease_lost = λ calls. false;
}

abbrev pub start : World
start = record { calls = []; resources = [] }

-- The worker before this one reached the provider and crashed.
abbrev applied : ActionExecution
applied = record {
  action_id = "a1";
  status = ActionStatus.applied;
  result = record empty_result { agenda_item_id = some "i2"; resource_key = some "agenda_item:a1" };
  error = none;
}

apply_plan-writes_example :
    writes (apply_plan platform (ports (("a1", applied) ∷ [])) sample_plan start).1
    ≤ writes start + plan_allowance (("a1", applied) ∷ []) sample_plan
apply_plan-writes_example =
    apply_plan-writes platform (ports (("a1", applied) ∷ [])) (("a1", applied) ∷ []) sample_plan
      start refl

apply_event-writes_example :
    writes (apply_event platform (ports []) event [] start).1
    ≤ writes start + total_allowance [] event.actions
apply_event-writes_example = apply_event-writes platform (ports []) event [] start

execute_or_resume-writes_nothing_example :
    writes (execute_or_resume platform (ports []) insertion (some applied) start).1 ≤ writes start
execute_or_resume-writes_nothing_example =
    execute_or_resume-writes_nothing platform (ports []) insertion (some applied) start refl

execute_or_resume-writes_once_example :
    writes (execute_or_resume platform (ports []) insertion none start).1 ≤ writes start + 1
execute_or_resume-writes_once_example =
    execute_or_resume-writes_once platform (ports []) insertion none start

-- Someone else has added an item.
guarded_step-writes_nothing_example :
    writes (guarded_step platform (ports []) "t1" [] insertion [] (some "i1:") none start).1
    ≤ writes start
unfolding agenda_fingerprint sorted_items
guarded_step-writes_nothing_example =
    guarded_step-writes_nothing platform (ports []) "t1" [] insertion [] (some "i1:") none filled
      start refl refl

-- The insertion of the song is found in the agenda that has it.
abbrev claimed : Option ActionResult → ActionResult
claimed none = empty_result
claimed (some result) = result

abbrev found_in : Result (Option ActionResult) → ActionResult
found_in (ok found) = claimed found
found_in (raise e) = empty_result

abbrev reconciled : Result (Option ActionResult)
reconciled = reconcile_agenda_effect platform insertion filled []

is_reconciled : reconciled ≡ ok (some (found_in reconciled))
unfolding reconcile_agenda_effect resolve candidate_of optional_resolve accept_candidate neighbour
    item_after sorted_items
is_reconciled = refl

reconcile_agenda_effect-IsClaim_example : IsClaim insertion filled [] (found_in reconciled)
reconcile_agenda_effect-IsClaim_example =
    reconcile_agenda_effect-IsClaim insertion filled [] platform (found_in reconciled) refl
      is_reconciled

sample_succeeds : (apply_plan platform (ports []) sample_plan start).0 ≡ ok RunStatus.succeeded
unfolding agenda_fingerprint apply_action apply_actions apply_by apply_event apply_events apply_kind
    apply_locked apply_plan apply_prepared apply_target apply_with attempt bind checkpoint conclude
    conclude_by continue dependent_step differs_step ensure_remote_lease execute_or_resume fail
    final_status finally finish_applied guarded_step handle has_named_arrangement item_before
    known_step leased_step lift normalize_ccli normalize_text optional_resolve perform prepare
    prepare_action prepare_actions prepare_leased prepare_locked pure reconcile_deletion
    reconcile_kind reconcile_song reconcile_step record_failure renew_leases resolve resources_of
    restore_resources resume reverify run_action run_step set_resources settle skip_remaining
    sorted_items step still_leased stop_with unbind update_kind update_ownership verify_action
    verify_item verify_kind verify_on_agenda verify_song ◌>>=◌
sample_succeeds = refl

apply_plan-succeeded_example :
    (count_if is_problem sample_plan.events ≡ 0) × (0 < count_if is_ready_event sample_plan.events)
apply_plan-succeeded_example =
    apply_plan-succeeded platform (ports []) sample_plan start sample_succeeds
