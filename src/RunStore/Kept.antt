-- ===== src/RunStore/Kept.antt =====
-- The plan of a run, which the store never takes back.
use worshiptool_churchtools.Prelude.{String, Option, none, some}
use worshiptool_churchtools.Sync.Models.{SyncPlan}
use worshiptool_churchtools.Sync.Platform.{Platform}
use worshiptool_churchtools.RunStore.State.{Store}
use worshiptool_churchtools.RunStore.Step.{Step}

-- The plan that the run's row holds, with its fingerprint.
abbrev pub stored_plan : Store → Option (String × SyncPlan)
stored_plan s = elim s.run [ none ↦ none | some run ↦ run.plan ]
