-- ===== src/RunStore/Fencing.antt =====
-- Who can change a run, and when it can change no more.
use worshiptool_churchtools.Prelude.{ℕ, String, ◌≡◌, ◌≢◌, ◌<◌, false, some, arith, eq_iff}
use worshiptool_churchtools.Sync.Models.{RunStatus}
use worshiptool_churchtools.Sync.Platform.{Platform}
use worshiptool_churchtools.RunStore.State.{
  Run, Store, truncate, is_active, holds_lease, active_leased_run, worker_session, conflict,
}
use worshiptool_churchtools.RunStore.Lease.{claimable, claim, renew_lease, finish}
use worshiptool_churchtools.RunStore.Plan.{persist_plan, action_started, action_finished}
use worshiptool_churchtools.RunStore.Bindings.{
  bind_ownership, unbind_ownership, record_event_synced,
}
use worshiptool_churchtools.RunStore.Step.{WorkerCall, claims, after_call, SameActions, Step}

-- The fence answers a conflict to a token that does not hold the lease.
fence-conflict :
    (now : ℕ) (token : String) (s : Store) (run : Run)
    → s.run ≡ some run
    → holds_lease now token run ≡ false
    → active_leased_run now token s ≡ conflict
unfolding active_leased_run
fence-conflict now token s run e h = rw (e, active_leased_run) (ground arith)

-- A session that fails at the fence rolls back.
module _ (p : Platform) (now : ℕ) (token : String) (s : Store) (run : Run) (row : s.run ≡ some run)
    (fenced : holds_lease now token run ≡ false) (kept : claimable now run ≡ false)
    (open_workspace : s.workspace_archived ≡ some false) where
  -- A call under a token that does not hold the lease, while the run cannot be claimed, changes
  -- nothing.
  pub after_call_fenced : (call : WorkerCall) → after_call p now token call s ≡ s
  unfolding after_call worker_session claim renew_lease finish persist_plan action_started
      action_finished bind_ownership unbind_ownership record_event_synced
  after_call_fenced (claims n) = ground arith
  after_call_fenced _ = ground (arith, fence-conflict now token s run row fenced)

not-holds_lease :
    (now : ℕ) (token owner : String) (run : Run)
    → run.lease_owner ≡ some owner
    → owner ≢ truncate 200 token
    → holds_lease now token run ≡ false
unfolding holds_lease
not-holds_lease now token owner run o h = ground (arith, eq_iff owner (truncate 200 token))

not-claimable :
    (now t : ℕ) (run : Run)
    → run.status ≡ RunStatus.running
    → run.lease_expires_at ≡ some t
    → now < t
    → claimable now run ≡ false
unfolding claimable
not-claimable now t run r e h = ground arith

-- While a run is executed under a lease that has not expired, no call of a worker whose token, cut
-- at 200 characters, is not the lease's owner changes anything in the store: it cannot take, renew
-- or end the run, nor write its plan, actions, bindings or checkpoints. The run's workspace is not
-- archived.
pub other_worker_fenced :
    (p : Platform) (now t : ℕ) (token owner : String) (call : WorkerCall) (s : Store) (run : Run)
    → s.run ≡ some run
    → s.workspace_archived ≡ some false
    → run.status ≡ RunStatus.running
    → run.lease_owner ≡ some owner
    → run.lease_expires_at ≡ some t
    → now < t
    → owner ≢ truncate 200 token
    → after_call p now token call s ≡ s
other_worker_fenced p now t token owner call s run row open_workspace running o expiry live other =
    after_call_fenced p now token s run row (not-holds_lease now token owner run o other)
      (not-claimable now t run running expiry live) open_workspace call

-- A step of a store in which the run has ended.
module _ (p : Platform) (run : Run) (ended : is_active run.status ≡ false) where
  abbrev Keeps : Store → Store → Type 0
  Keeps s t = (t.run ≡ some run) × SameActions run.id s.actions t.actions
