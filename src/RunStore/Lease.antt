-- ===== src/RunStore/Lease.antt =====
-- `_claim`, `_renew_lease`, `_cancel_requested` and `_finish`, and what `_create_due_runs` and
-- `_mark_dispatched` do to the row of one run.
use worshiptool_churchtools.Prelude.{
  ℕ, ◌+◌, ◌-◌, String, Bool, true, false, not, Option, none, some, leb, nat_eq, ◌&&◌, ◌||◌,
  if◌then◌else◌,
}
use worshiptool_churchtools.Sync.Errors.{ok, raise}
use worshiptool_churchtools.Sync.Models.{
  ProfileConfig, RunSpecification, RunStatus, is_valid_profile,
}
use worshiptool_churchtools.Sync.Platform.{Platform}
use worshiptool_churchtools.RunStore.State.{
  Run, RunError, ProfileRow, Store, truncate, seconds, is_queued, is_running, is_active, is_over,
  holds_lease, active_leased_run,
}

-- `SyncRun.status == QUEUED OR (RUNNING AND lease_expires_at < now)`
unfoldable pub claimable : ℕ → Run → Bool
claimable now run =
    is_queued run.status || (is_running run.status && is_over now run.lease_expires_at)

-- The row after a claim that ends the run at once.
abbrev pub ended : ℕ → RunStatus → RunError → Run → Run
ended now status error run = record run {
  status = status;
  finished_at = some now;
  error = some error;
  lease_owner = none;
  lease_expires_at = none;
}

abbrev pub coalesce : Option ℕ → ℕ → Option ℕ
coalesce none now = some now
coalesce (some t) now = some t

-- The `UPDATE` that takes the lease.
abbrev pub leased : ℕ → String → ℕ → Run → Run
leased now worker lease_seconds run = record run {
  status = RunStatus.running;
  started_at = coalesce run.started_at now;
  lease_owner = some (truncate 200 worker);
  lease_expires_at = some (now + seconds lease_seconds);
}

-- A profile whose configuration could not be converted ends the run as failed.
abbrev pub configured : ℕ → Run → ProfileRow → Option ProfileConfig → Run × Option RunSpecification
configured now run profile none =
    (ended now RunStatus.failed RunError.invalid_profile_configuration run, none)
configured now run profile (some config) = (
  run,
  some (record {
    run_id = run.id;
    workspace_id = run.workspace_id;
    source_connection_id = profile.source_connection_id;
    target_connection_id = profile.target_connection_id;
    profile = config;
    dry_run = run.dry_run;
  }),
)

module _ (p : Platform) where
  -- The construction of the `ProfileConfig`, whose `__post_init__` may raise.
  abbrev pub construct : ℕ → ProfileConfig → Option ProfileConfig
  construct revision columns =
      let config = record columns { revision = revision } in
      if is_valid_profile p.valid_zone p.text_length config then some config else none

  -- The end of `_profile_config`, at a revision, on the converted columns.
  unfoldable pub profile_config : ProfileRow → ℕ → Option ProfileConfig
  profile_config profile revision = elim profile.config [
    | none ↦ none
    | some columns ↦ construct revision columns
  ]

  -- `_claim` after its `UPDATE`, on the leased row.
  unfoldable pub specify : ℕ → Run → Option ProfileRow → Run × Option RunSpecification
  specify now run none = (ended now RunStatus.failed RunError.configuration run, none)
  specify now run (some profile) = elim run.plan [
    | none ↦
        if not (nat_eq profile.revision run.config_revision)
        then (ended now RunStatus.skipped RunError.configuration_revision_changed run, none)
        else configured now run profile (profile_config profile profile.revision)
    | some plan ↦ configured now run profile (profile_config profile run.config_revision)
  ]

  -- The claim in a workspace that is not archived.
  unfoldable pub claim_run : ℕ → String → ℕ → Run → Store → Option RunSpecification × Store
  unfolding claimable
  claim_run now worker lease_seconds run s =
      if claimable now run
      then (let (run', specification) =
            specify now (leased now worker lease_seconds run) s.profile in
          (specification, record s { run = some run' }))
      else (none, s)

  -- The claim in a workspace that is archived or gone.
  unfoldable pub cancel_archived : ℕ → Run → Store → Store
  cancel_archived now run s =
      if is_active run.status
      then record s { run = some (ended now RunStatus.canceled RunError.workspace_archived run) }
      else s

  unfoldable pub claim : ℕ → String → ℕ → Store → Option RunSpecification × Store
  unfolding claim_run cancel_archived
  claim now worker lease_seconds s = elim s.run [
    | none ↦ (none, s)
    | some run ↦ elim s.workspace_archived [
      | none ↦ (none, cancel_archived now run s)
      | some archived ↦
          if archived
          then (none, cancel_archived now run s)
          else claim_run now worker lease_seconds run s
    ]
  ]

unfoldable pub renew_lease : ℕ → String → ℕ → Store → Bool × Store
renew_lease now token lease_seconds s = elim s.run [
  | none ↦ (false, s)
  | some run ↦
      if holds_lease now token run
      then (
        true,
        record s {
          run = some (record run { lease_expires_at = some (now + seconds lease_seconds) });
        },
      )
      else (false, s)
]

unfoldable pub cancel_requested : Store → Bool
cancel_requested s = elim s.run [
  | none ↦ false
  | some run ↦ elim run.status [ RunStatus.canceled ↦ true | _ ↦ false ]
]

-- A stale worker's completion is ignored.
unfoldable pub finish : ℕ → RunStatus → Option RunError → Option String → Store → Bool × Store
finish now status error none s = (false, s)
finish now status error (some token) s = elim (active_leased_run now token s) [
  | raise e ↦ (false, s)
  | ok run ↦ (
    true,
    record s {
      run = some (record run {
        status = status;
        error = error;
        finished_at = some now;
        lease_owner = none;
        lease_expires_at = none;
      });
    },
  )
]

-- `dispatch_attempted_at IS NULL OR dispatch_attempted_at <= retry_before`
abbrev pub never_or_before : ℕ → Option ℕ → Bool
never_or_before retry_before none = true
never_or_before retry_before (some t) = leb t retry_before

abbrev pub not_archived : Option Bool → Bool
not_archived none = false
not_archived (some archived) = not archived

-- The loop body over the recoverable runs.
abbrev pub requeued : ℕ → Run → Run
requeued now run =
    if is_running run.status
    then (record run {
      status = RunStatus.queued;
      lease_owner = none;
      lease_expires_at = none;
      dispatch_attempted_at = some now;
    })
    else (record run { dispatch_attempted_at = some now })

-- The `WHERE` of the recoverable runs in `_create_due_runs`.
unfoldable pub recoverable : ℕ → ℕ → Run → Bool
recoverable now retry_before run =
    (is_queued run.status && never_or_before retry_before run.dispatch_attempted_at)
    || (is_running run.status && is_over now run.lease_expires_at)

-- What `_create_due_runs` does to a run that it selects: an expired execution is fenced and queued.
unfoldable pub redispatch : ℕ → ℕ → Store → Bool × Store
unfolding recoverable
redispatch now redelivery_seconds s = elim s.run [
  | none ↦ (false, s)
  | some run ↦
      if not_archived s.workspace_archived && recoverable now (now - seconds redelivery_seconds) run
      then (true, record s { run = some (requeued now run) })
      else (false, s)
]

-- `_mark_dispatched`
unfoldable pub mark_dispatched : ℕ → Store → Bool × Store
mark_dispatched at s = elim s.run [
  | none ↦ (false, s)
  | some run ↦
      if is_active run.status
      then (
        true,
        record s { run = some (record run { dispatch_attempted_at = some at; error = none }) },
      )
      else (false, s)
]

-- The state change of the route `cancel_run` (backend/app/routers/runs.py): only a queued run can be
-- canceled; `false` is its answer 409.
unfoldable pub cancel_run : ℕ → Store → Bool × Store
cancel_run now s = elim s.run [
  | none ↦ (false, s)
  | some run ↦
      if is_queued run.status
      then (
        true,
        record s {
          run = some (record run { status = RunStatus.canceled; finished_at = some now });
        },
      )
      else (false, s)
]
