-- ===== src/Dispatch/OneActive.antt =====
-- A profile has at most one active run.
use worshiptool_churchtools.Prelude.{
  ℕ, ◌+◌, ◌-◌, ◌≤◌, ◌≡◌, refl, String, Bool, false, Option, none, some, List, [], ◌∷◌,
  if◌then◌else◌, ◌==◌, count_if, find, length, leb, min, max, arith, All, Bool-cases, ltb, is_some,
  inl, inr, eq_iff,
}
use worshiptool_churchtools.Scheduling.{Cron, Scheduled}
use worshiptool_churchtools.RunStore.State.{seconds}
use worshiptool_churchtools.Dispatch.State.{Store, SyncProfile, SyncRun, Workspace, is_active_of}
use worshiptool_churchtools.Dispatch.Due.{
  create_due_runs, due_profiles, following, recover, recovered_ids, schedule_by, schedule_profiles,
  scheduled_run, invalid_run,
}
use worshiptool_churchtools.Dispatch.Start.{
  add_run, after_cooldown, in_workspace, manual_run, start_in, start_run, without_active,
}
use worshiptool_churchtools.Dispatch.Profiles.{
  active_count, AllFree, IsKeyed, count_if-append, none_found, count_if-recover, due_profiles-free,
}

pub record OneActive (s : Store) : Type 0 where
  pub at_most_one : (profile_id : String) → count_if (is_active_of profile_id) s.runs ≤ 1

module _ {I : Type 0} (cron : Cron I) (new_id : List SyncRun → String) (now : ℕ) where
  -- Scheduling a profile adds at most one active run, and only to that profile.
  schedule_by-count :
      (p : SyncProfile) (following : Scheduled) (s : Store) (k : String)
      → active_count k (schedule_by cron new_id now p following s).1.runs
        ≤ active_count k s.runs + (if p.id == k then 1 else 0)
  schedule_by-count p (Scheduled.at next) s k =
      ground
        (arith, count_if-append (is_active_of k) s.runs (scheduled_run cron new_id now p s.runs))
  schedule_by-count p (Scheduled.value_error e) s k =
      ground (arith, count_if-append (is_active_of k) s.runs (invalid_run cron new_id now p s.runs))

  still_free :
      (p : SyncProfile) (following : Scheduled) (s : Store) (ps : List SyncProfile)
      → All (λ (q : SyncProfile). (p.id == q.id) ≡ false) ps
      → AllFree ps s.runs
      → AllFree ps (schedule_by cron new_id now p following s).1.runs
  still_free p following s [] h k = tt
  still_free p following s (q ∷ ps) (h, hs) (k, ks) = (
    ground (arith, h, k, schedule_by-count p following s q.id),
    still_free p following s ps hs ks,
  )

  OneActive-schedule_by :
      (p : SyncProfile) (following : Scheduled) (s : Store)
      → active_count p.id s.runs ≡ 0
      → OneActive s
      → OneActive (schedule_by cron new_id now p following s).1
  OneActive-schedule_by p following s h o = record {
    at_most_one =
        λ k. ground (arith, eq_iff p.id k, h, o.at_most_one k, schedule_by-count p following s k);
  }

  OneActive-schedule_profiles :
      (ps : List SyncProfile) (s : Store)
      → IsKeyed ps
      → AllFree ps s.runs
      → OneActive s
      → OneActive (schedule_profiles cron new_id now ps s).1
  unfolding schedule_profiles
  OneActive-schedule_profiles [] s h k o = o
  OneActive-schedule_profiles (p ∷ ps) s (h, hs) (k, ks) o =
      let next = following cron new_id now p in
      OneActive-schedule_profiles ps (schedule_by cron new_id now p next s).1 hs
        (still_free p next s ps h ks) (OneActive-schedule_by p next s k o)

  OneActive-recover :
      (ids : List String) (s : Store) → OneActive s → OneActive (recover cron new_id now ids s)
  OneActive-recover ids s o = record {
    at_most_one = λ k. ground (arith, o.at_most_one k, count_if-recover now ids k s.runs);
  }

  -- The scheduler never gives a profile a second active run: where every profile has at most one,
  -- it still has after the scheduler has sent runs again, created new ones and recorded invalid
  -- schedules, whatever the limits are. The ids of the profiles are a key.
  pub OneActive-create_due_runs :
      (redelivery_seconds limit : ℕ) (s : Store)
      → IsKeyed s.profiles
      → OneActive s
      → OneActive (create_due_runs cron new_id now redelivery_seconds limit s).1
  unfolding create_due_runs
  OneActive-create_due_runs redelivery_seconds limit s keyed o =
      let batch_limit = max 1 (min limit 1000) in
      let ids = recovered_ids now (now - seconds redelivery_seconds) batch_limit s in
      let t = recover cron new_id now ids s in
      let recovered = OneActive-recover ids s o in
      let (k, f) = due_profiles-free now (batch_limit - length ids) t keyed in
      elim (Bool-cases (leb batch_limit (length ids))) [
        | inl e ↦ rw e recovered
        | inr e ↦ rw e (
            OneActive-schedule_profiles (due_profiles now (batch_limit - length ids) t) t k f
              recovered)
      ]

module _ (new_id : List SyncRun → String) (now : ℕ) (dry_run : Bool) where
  OneActive-add_run :
      (p : SyncProfile) (s : Store)
      → active_count p.id s.runs ≡ 0
      → OneActive s
      → OneActive (add_run new_id now dry_run p s).1
  OneActive-add_run p s h o = record {
    at_most_one = λ k. ground (
      arith,
      eq_iff p.id k,
      h,
      o.at_most_one k,
      count_if-append (is_active_of k) s.runs (manual_run new_id now dry_run p s),
    );
  }

  OneActive-cooldown :
      (cooldown : ℕ) (p : SyncProfile) (s : Store) (last : Option SyncRun)
      → active_count p.id s.runs ≡ 0
      → OneActive s
      → OneActive (after_cooldown new_id now dry_run cooldown p s last).1
  unfolding after_cooldown
  OneActive-cooldown cooldown p s none h o = OneActive-add_run p s h o
  OneActive-cooldown cooldown p s (some last) h o =
      elim (Bool-cases (ltb now (last.created_at + seconds cooldown))) [
        | inl e ↦ rw e o
        | inr e ↦ rw e (OneActive-add_run p s h o)
      ]

  OneActive-without :
      (w : Workspace) (p : SyncProfile) (s : Store) (active : Option SyncRun)
      → find (is_active_of p.id) s.runs ≡ active
      → OneActive s
      → OneActive (without_active new_id now dry_run w p s active).1
  unfolding without_active
  OneActive-without w p s (some active) h o = o
  OneActive-without w p s none h o =
      OneActive-cooldown w.manual_run_cooldown_seconds p s _
        (none_found (is_active_of p.id) s.runs h) o

  OneActive-in_workspace :
      (w : Workspace) (s : Store) (profile : Option SyncProfile)
      → OneActive s
      → OneActive (in_workspace new_id now dry_run w s profile).1
  unfolding in_workspace
  OneActive-in_workspace w s none o = o
  OneActive-in_workspace w s (some p) o = OneActive-without w p s _ refl o

  OneActive-start_in :
      (profile_id : String) (s : Store) (workspace : Option Workspace)
      → OneActive s
      → OneActive (start_in new_id now dry_run profile_id s workspace).1
  unfolding start_in
  OneActive-start_in profile_id s none o = o
  OneActive-start_in profile_id s (some w) o = elim (Bool-cases (is_some w.archived_at)) [
    | inl e ↦ rw e o
    | inr e ↦ rw e (OneActive-in_workspace w s _ o)
  ]

  -- An operator never starts a second active run of a profile, whatever the answer is.
  pub OneActive-start_run :
      (workspace_id profile_id : String) (s : Store)
      → OneActive s
      → OneActive (start_run new_id now dry_run workspace_id profile_id s).1
  unfolding start_run
  OneActive-start_run workspace_id profile_id s o = OneActive-start_in profile_id s _ o
