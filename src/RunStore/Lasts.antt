-- ===== src/RunStore/Lasts.antt =====
-- What lasts until the retention removes the run.
use worshiptool_churchtools.Prelude.{
  ℕ, String, ◌≡◌, false, none, some, arith, inl, inr, ◌⊎◌, Bool-cases, Option-cases, refl,
}
use worshiptool_churchtools.Sync.Platform.{Platform}
use worshiptool_churchtools.RunStore.State.{
  Run, Store, is_active, active_leased_run, worker_session,
}
use worshiptool_churchtools.RunStore.Lease.{
  claim, specify, renew_lease, finish, redispatch, mark_dispatched, cancel_run,
}
use worshiptool_churchtools.RunStore.Plan.{persist_plan, action_started, action_finished}
use worshiptool_churchtools.RunStore.Bindings.{
  bind_ownership, unbind_ownership, record_event_synced,
}
use worshiptool_churchtools.RunStore.Api.{
  archive_workspace, unarchive_workspace, cleanup_run, is_terminal_run,
}
use worshiptool_churchtools.RunStore.Step.{
  WorkerCall, claims, after_call, Step, works, redispatches, dispatches, cancels, archives,
  unarchives, cleans, edits, runs_elsewhere, Reach, here, next, run_id_of,
}

-- The step removes a run that has ended.
abbrev pub Removes : Store → Store → Type 0
Removes s t = (run : Run) × (s.run ≡ some run) × (is_active run.status ≡ false) × (t.run ≡ none)

pub cleanup_run-cases :
    (cutoff : ℕ) (s : Store) → (cleanup_run cutoff s ≡ s) ⊎ Removes s (cleanup_run cutoff s)
unfolding cleanup_run
cleanup_run-cases cutoff s = elim (Option-cases s.run) [
  | inl e ↦ inl (ground arith)
  | inr (run, e) ↦ elim (Bool-cases (is_terminal_run cutoff run)) [
    | inl h ↦ inr (run, e, ground arith, ground arith)
    | inr h ↦ inl (ground arith)
  ]
]

module _ (p : Platform) where
  run_id-after_call :
      (s : Store) (now : ℕ) (token : String) (call : WorkerCall)
      → run_id_of (after_call p now token call s) ≡ run_id_of s
  unfolding after_call worker_session claim specify renew_lease finish persist_plan action_started
      action_finished bind_ownership unbind_ownership record_event_synced active_leased_run
  run_id-after_call s now token (claims n) = ground arith
  run_id-after_call s now token _ = ground arith

  -- A step keeps the run's id, or removes the run.
  pub run_id-Step : {s t : Store} → Step p s t → (run_id_of t ≡ run_id_of s) ⊎ Removes s t
  unfolding redispatch mark_dispatched cancel_run archive_workspace unarchive_workspace
  run_id-Step {s} (works now token call) = inl (run_id-after_call s now token call)
  run_id-Step {s} (redispatches now redelivery) = inl (ground arith)
  run_id-Step {s} (dispatches at) = inl (ground arith)
  run_id-Step {s} (cancels now) = inl (ground arith)
  run_id-Step {s} (archives now) = inl (ground arith)
  run_id-Step {s} unarchives = inl (ground arith)
  run_id-Step {s} (cleans cutoff) = elim (cleanup_run-cases cutoff s) [
    | inl e ↦ inl (rw e refl)
    | inr r ↦ inr r
  ]
  run_id-Step {s} (edits profile) = inl refl
  run_id-Step {s} (runs_elsewhere actions bindings checkpoints h) = inl refl

  -- A run that was removed stays so.
  gone-Step : {s t : Store} → s.run ≡ none → Step p s t → t.run ≡ none
  gone-Step {s} {t} h step = elim (run_id-Step step) [
    | inl e ↦ elim (Option-cases t.run) [
      | inl none_left ↦ none_left
      | inr (run, found) ↦ ground (arith, e)
    ]
    | inr (run, e, ended, gone) ↦ gone
  ]

  -- What holds of every store until the run, having ended, is removed.
  abbrev pub Until : (Store → Type 0) → Store → Type 0
  Until P t =
      P t
      ⊎ ((u : Store) × (run : Run) × P u
          × (u.run ≡ some run)
          × (is_active run.status ≡ false)
          × Reach p u t
          × (t.run ≡ none))

  pub Until-Reach :
      (P : Store → Type 0) (s t : Store)
      → ((u v : Store) → P u → Step p u v → P v ⊎ Removes u v)
      → P s
      → Reach p s t
      → Until P t
  Until-Reach P s t closed h here = inl h
  Until-Reach P s t closed h (next {t = v} r step) = elim (Until-Reach P s v closed h r) [
    | inl holds ↦ elim (closed v t holds step) [
      | inl still ↦ inl still
      | inr (run, e, ended, gone) ↦ inr (v, run, holds, e, ended, next here step, gone)
    ]
    | inr (u, run, held, e, ended, later, gone) ↦
        inr (u, run, held, e, ended, next later step, gone-Step gone step)
  ]
