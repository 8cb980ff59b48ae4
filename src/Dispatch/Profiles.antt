-- ===== src/Dispatch/Profiles.antt =====
-- The profiles that are due, and the active runs of each.
use worshiptool_churchtools.Prelude.{
  ℕ, ◌+◌, ◌≡◌, refl, String, Bool, true, false, not, none, List, [], ◌∷◌, ◌++◌, if◌then◌else◌, ◌==◌,
  any, count_if, find, select, sort, insert_sorted, take, modify_if, arith, All, All-select,
  All-sort, All-insert_sorted, All-take, All-intro, All-at, Bool-cases, zero, suc, inl, inr, eq_iff,
}
use worshiptool_churchtools.Dispatch.State.{Store, SyncProfile, SyncRun, is_active_of}
use worshiptool_churchtools.Dispatch.Due.{due_profiles, is_due_profile, profile_leb, requeued_run}

abbrev pub active_count : String → List SyncRun → ℕ
active_count profile_id runs = count_if (is_active_of profile_id) runs

-- The ids of the profiles are a key.
abbrev pub IsKeyed : List SyncProfile → Type 0
IsKeyed [] = Unit {0}
IsKeyed (profile ∷ profiles) =
    All (λ (q : SyncProfile). (profile.id == q.id) ≡ false) profiles × IsKeyed profiles

pub count_if-append :
    (test : SyncRun → Bool) (runs : List SyncRun) (run : SyncRun)
    → count_if test (runs ++ run ∷ []) ≡ count_if test runs + (if test run then 1 else 0)
count_if-append test [] run = ground arith
count_if-append test (r ∷ runs) run = ground (arith, count_if-append test runs run)

none_active :
    (test : SyncRun → Bool) (runs : List SyncRun)
    → not (any runs test) ≡ true
    → count_if test runs ≡ 0
none_active test [] h = refl
none_active test (r ∷ runs) h = ground (arith, none_active test runs)

pub none_found :
    (test : SyncRun → Bool) (runs : List SyncRun) → find test runs ≡ none → count_if test runs ≡ 0
none_found test [] h = refl
none_found test (r ∷ runs) h = ground (arith, none_found test runs)

requeued_status :
    (now : ℕ) (k : String) (run : SyncRun)
    → is_active_of k (requeued_run now run) ≡ is_active_of k run
requeued_status now k run = ground arith

pub count_if-recover :
    (now : ℕ) (ids : List String) (k : String) (runs : List SyncRun)
    → active_count k
        (modify_if (λ (run : SyncRun). any ids (λ id. run.id == id)) (requeued_run now) runs)
      ≡ active_count k runs
count_if-recover now ids k [] = refl
count_if-recover now ids k (run ∷ runs) =
    ground (arith, requeued_status now k run, count_if-recover now ids k runs)

IsKeyed-select :
    (test : SyncProfile → Bool) (profiles : List SyncProfile)
    → IsKeyed profiles
    → IsKeyed (select test profiles)
IsKeyed-select test [] h = tt
IsKeyed-select test (p ∷ ps) (h, hs) = elim (Bool-cases (test p)) [
  | inl e ↦ rw e (
    All-select _ test ps (All-intro _ ps (λ x m t. All-at _ ps h x m)),
    IsKeyed-select test ps hs,
  )
  | inr e ↦ rw e (IsKeyed-select test ps hs)
]

flipped : (a b : String) → (a == b) ≡ false → (b == a) ≡ false
flipped a b h = ground (arith, eq_iff a b, eq_iff b a, h)

IsKeyed-insert :
    (p : SyncProfile) (ps : List SyncProfile)
    → All (λ (q : SyncProfile). (p.id == q.id) ≡ false) ps
    → IsKeyed ps
    → IsKeyed (insert_sorted profile_leb p ps)
IsKeyed-insert p [] h k = (tt, tt)
IsKeyed-insert p (q ∷ qs) (h, hs) (k, ks) = elim (Bool-cases (profile_leb p q)) [
  | inl e ↦ rw e ((h, hs), (k, ks))
  | inr e ↦ rw e (
    All-insert_sorted (λ (x : SyncProfile). (q.id == x.id) ≡ false) profile_leb p qs
        (flipped p.id q.id h) k,
    IsKeyed-insert p qs hs ks,
  )
]

IsKeyed-sort : (ps : List SyncProfile) → IsKeyed ps → IsKeyed (sort profile_leb ps)
IsKeyed-sort [] h = tt
IsKeyed-sort (p ∷ ps) (h, hs) =
    IsKeyed-insert p (sort profile_leb ps) (All-sort _ profile_leb ps h) (IsKeyed-sort ps hs)

IsKeyed-take : (n : ℕ) (ps : List SyncProfile) → IsKeyed ps → IsKeyed (take n ps)
IsKeyed-take zero ps h = tt
IsKeyed-take (suc n) [] h = tt
IsKeyed-take (suc n) (p ∷ ps) (h, hs) = (All-take _ n ps h, IsKeyed-take n ps hs)

-- No profile of the list has an active run.
abbrev pub AllFree : List SyncProfile → List SyncRun → Type 0
AllFree ps runs = All (λ (p : SyncProfile). active_count p.id runs ≡ 0) ps

pub due_profiles-free :
    (now limit : ℕ) (s : Store)
    → IsKeyed s.profiles
    → IsKeyed (due_profiles now limit s) × AllFree (due_profiles now limit s) s.runs
unfolding due_profiles
due_profiles-free now limit s h =
    let chosen = select (is_due_profile now s) s.profiles in
    (
      IsKeyed-take limit (sort profile_leb chosen)
          (IsKeyed-sort chosen (IsKeyed-select (is_due_profile now s) s.profiles h)),
      All-take _ limit (sort profile_leb chosen) (
          All-sort _ profile_leb chosen (
            All-select _ (is_due_profile now s) s.profiles (
              All-intro _ s.profiles
                (λ p m t. none_active (is_active_of p.id) s.runs (ground (arith, t)))))),
    )
