-- ===== src/RunStore/Outcomes.antt =====
-- The outcomes of the actions of a run, which the store never takes back.
use worshiptool_churchtools.Prelude.{ℕ, String, ◌≡◌, Bool, true, false, some, get, Dict}
use worshiptool_churchtools.Sync.Models.{ActionStatus, ActionExecution, SyncPlan}
use worshiptool_churchtools.Sync.Platform.{Platform}
use worshiptool_churchtools.RunStore.State.{ActionRow, Store, worker_session}
use worshiptool_churchtools.RunStore.Plan.{persist_plan, action_finished, is_final}
use worshiptool_churchtools.RunStore.Step.{Step, run_id_of}

-- The statuses that may follow a status.
abbrev pub may_become : ActionStatus → ActionStatus → Bool
may_become ActionStatus.planned _ = true
may_become ActionStatus.applied ActionStatus.applied = true
may_become ActionStatus.applied ActionStatus.verified = true
may_become ActionStatus.applied ActionStatus.failed = true
may_become ActionStatus.applied _ = false
may_become ActionStatus.verified ActionStatus.verified = true
may_become ActionStatus.verified _ = false
may_become ActionStatus.failed ActionStatus.failed = true
may_become ActionStatus.failed _ = false
may_become ActionStatus.skipped ActionStatus.skipped = true
may_become ActionStatus.skipped _ = false

-- What the store may hold of an action in place of a row.
pub record Follows (row row' : ActionRow) : Type 0 where
  pub allowed : may_become row.status row'.status ≡ true
  pub same_run : row'.run_id ≡ row.run_id
  pub frozen : is_final row.status ≡ true → row' ≡ row

-- The row of an action in a table, after a row that it had before.
abbrev pub HasRow : String → ActionRow → Dict ActionRow → Type 0
HasRow id row d = (row' : ActionRow) × (get id d ≡ some row') × Follows row row'

-- The table after `_action_finished`: as before, or with one row overwritten.
module _ (now : ℕ) (token : String) (execution : ActionExecution) (s : Store) where
  abbrev recorded : Store
  recorded = (worker_session (action_finished now execution token) s).1

-- The table after `_persist_plan`: as before, or with new rows added.
module _ (p : Platform) (now : ℕ) (token : String) (plan : SyncPlan) (s : Store) where
  abbrev persisted : Store
  persisted = (worker_session (persist_plan p now plan token) s).1

-- The run has a row of the action, after one that it had.
abbrev pub Continues : String → ActionRow → Store → Type 0
Continues id row t = (run_id_of t ≡ some row.run_id) × HasRow id row t.actions
