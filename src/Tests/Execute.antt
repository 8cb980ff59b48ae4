-- ===== src/Tests/Execute.antt =====
-- A whole run of the orchestrator, from the claim to its end.
use worshiptool_churchtools.Prelude.{◌≤◌, ◌≡◌, refl, Bool, true, false, Option, none, some, [], ◌∷◌}
use worshiptool_churchtools.Sync.Errors.{ok}
use worshiptool_churchtools.Sync.Models.{RunSpecification, RunStatus}
use worshiptool_churchtools.Sync.Fingerprints.{Digests}
use worshiptool_churchtools.Sync.Engine.Calls.{writes, ◌>>=◌, perform, handle, pure, lift, fail}
use worshiptool_churchtools.Sync.Engine.Status.{dry_run_status}
use worshiptool_churchtools.Sync.Engine.Run.{
  Intake, execute, execute_claimed, attempt_run, durable_plan, carry_out, conclude_run,
}
use worshiptool_churchtools.Sync.Engine.Run.Guard.{is_guarded}
use worshiptool_churchtools.Sync.Engine.Run.Durable.{execute-is_guarded}
use worshiptool_churchtools.Sync.Engine.Run.Quiet.{execute-writes_nothing}
use worshiptool_churchtools.Sync.Engine.Run.Outcome.{
  IsFinished, execute-IsFinished, execute-returns,
}
use worshiptool_churchtools.Tests.Engine.{ports, start}
use worshiptool_churchtools.Tests.Samples.{
  platform, profile, sample_plan, source_events, target_events, source_song, target_song,
}

abbrev digests : Digests
digests = record {
  metadata_leb = λ a b. true;
  songs_digest = λ documents. "songs";
  config_digest = λ document. "config";
}

abbrev specification : Bool → RunSpecification
specification dry_run = record {
  run_id = "r1";
  workspace_id = "ws1";
  source_connection_id = "cs1";
  target_connection_id = "ct1";
  profile = profile;
  dry_run = dry_run;
}

-- The first worker finds no plan.
abbrev intake : Bool → Intake
intake dry_run = record {
  claimed = λ calls. ok (some (specification dry_run));
  opened = λ calls. ok tt;
  stored = λ calls. ok none;
  instant = λ calls. ok 50;
  source_events = λ calls. ok source_events;
  target_events = λ calls. ok target_events;
  source_songs = λ calls. ok (source_song ∷ []);
  target_songs = λ calls. ok (target_song ∷ []);
  states = λ calls. ok [];
  owned = λ calls. ok [];
}

-- A later one has the plan that was stored.
abbrev resumed : Intake
resumed = record (intake true) { stored = λ calls. ok (some sample_plan) }

execute-is_guarded_example :
    is_guarded
      (ports [])
      (intake false)
      (execute platform digests (ports []) (intake false) "r1" start).1.calls
    ≡ true
unfolding is_guarded
execute-is_guarded_example =
    execute-is_guarded platform digests (ports []) (intake false) "r1" start refl

execute-writes_nothing_example :
    writes (execute platform digests (ports []) (intake true) "r1" start).1 ≤ writes start
execute-writes_nothing_example =
    execute-writes_nothing platform digests (ports []) (intake true) "r1" start (specification true)
      refl refl

resumed_succeeds :
    (execute platform digests (ports []) resumed "r1" start).0 ≡ ok (some RunStatus.succeeded)
unfolding execute execute_claimed attempt_run durable_plan carry_out conclude_run dry_run_status
    handle perform pure lift fail ◌>>=◌
resumed_succeeds = refl

execute-IsFinished_example :
    IsFinished
      (ports [])
      RunStatus.succeeded
      (execute platform digests (ports []) resumed "r1" start).1.calls
execute-IsFinished_example =
    execute-IsFinished platform digests (ports []) resumed "r1" start RunStatus.succeeded
      resumed_succeeds

execute-returns_example :
    (o : Option RunStatus) × ((execute platform digests (ports []) (intake false) "r1" start).0
      ≡ ok o)
execute-returns_example =
    execute-returns platform digests (ports []) (intake false) "r1" start
      (some (specification false)) refl (λ status error calls. (true, refl))
