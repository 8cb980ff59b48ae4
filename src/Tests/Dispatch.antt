-- ===== src/Tests/Dispatch.antt =====
-- One workspace with one profile that is due.
use worshiptool_churchtools.Prelude.{
  ℕ, ◌+◌, refl, String, true, false, none, some, List, [], ◌∷◌, All, arith, inl,
}
use worshiptool_churchtools.Scheduling.{Cron}
use worshiptool_churchtools.Dispatch.State.{Store, SyncProfile, SyncRun, Workspace}
use worshiptool_churchtools.Dispatch.Due.{create_due_runs, schedule_profiles}
use worshiptool_churchtools.Dispatch.Start.{start_run}
use worshiptool_churchtools.Dispatch.OneActive.{
  OneActive, OneActive-create_due_runs, OneActive-start_run,
}
use worshiptool_churchtools.Dispatch.Later.{MovedOn, schedule_profiles-MovedOn}

abbrev cron : Cron ℕ
cron = record { start = λ expression zone base. some base; get_next = λ i. some (i + 1, i + 1) }

abbrev new_id : List SyncRun → String
new_id runs = "r1"

abbrev workspace : Workspace
workspace = record { id = "ws1"; archived_at = none; manual_run_cooldown_seconds = 60 }

abbrev profile : SyncProfile
profile = record {
  id = "p1";
  workspace_id = "ws1";
  revision = 1;
  enabled = true;
  schedule_type = "interval";
  interval_minutes = some 15;
  cron_expression = none;
  target_timezone = "Europe/Berlin";
  last_scheduled_at = none;
  next_scheduled_at = none;
}

abbrev idle : Store
idle = record { workspaces = workspace ∷ []; profiles = profile ∷ []; runs = [] }

OneActive-idle : OneActive idle
OneActive-idle = record { at_most_one = λ k. omega arith }

OneActive-create_due_runs_example : OneActive (create_due_runs cron new_id 100 300 10 idle).1
OneActive-create_due_runs_example =
    OneActive-create_due_runs cron new_id 100 300 10 idle (tt, tt) OneActive-idle

OneActive-start_run_example : OneActive (start_run new_id 100 false "ws1" "p1" idle).1
OneActive-start_run_example = OneActive-start_run new_id 100 false "ws1" "p1" idle OneActive-idle

schedule_profiles-MovedOn_example :
    All
      (MovedOn cron new_id 100 profile)
      (schedule_profiles cron new_id 100 (profile ∷ []) idle).1.profiles
schedule_profiles-MovedOn_example =
    schedule_profiles-MovedOn cron new_id 100 (profile ∷ []) idle profile (tt, tt) (inl refl)
