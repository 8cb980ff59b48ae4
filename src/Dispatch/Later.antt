-- ===== src/Dispatch/Later.antt =====
-- When a profile that was scheduled is due again.
use worshiptool_churchtools.Prelude.{
  ℕ, ◌+◌, ◌<◌, ◌≡◌, ◌≢◌, String, refl, true, false, Option, some, List, [], ◌∷◌, ◌==◌, modify_if,
  arith, All, In, inl, inr, Bool-cases, eq_iff,
}
use worshiptool_churchtools.Scheduling.{Cron, Scheduled, next_schedule_after-later}
use worshiptool_churchtools.Dispatch.State.{Store, SyncProfile, SyncRun}
use worshiptool_churchtools.Dispatch.Due.{
  following, has_profile_id, planned_profile, postponed_profile, schedule_by, schedule_profiles,
}
use worshiptool_churchtools.Dispatch.Profiles.{IsKeyed}

-- The next instant of a profile, by its schedule: the one that the schedule gives, after now, or 24
-- hours from now where the schedule is corrupt.
abbrev pub IsNext : ℕ → Scheduled → Option ℕ → Type 0
IsNext now (Scheduled.at next) t = (t ≡ some next) × (now < next)
IsNext now (Scheduled.value_error e) t = t ≡ some (now + 86400000000)

module _ {I : Type 0} (cron : Cron I) (new_id : List SyncRun → String) (now : ℕ) where
  -- The row, if it is the one of the profile, has its next instant.
  abbrev pub MovedOn : SyncProfile → SyncProfile → Type 0
  MovedOn p q = (q.id == p.id) ≡ true → IsNext now (following cron new_id now p) q.next_scheduled_at

  moved :
      (p : SyncProfile) (f : SyncProfile → SyncProfile) (rows : List SyncProfile)
      → ((q : SyncProfile) → IsNext now (following cron new_id now p) (f q).next_scheduled_at)
      → All (MovedOn p) (modify_if (has_profile_id p.id) f rows)
  moved p f [] h = tt
  moved p f (q ∷ rows) h = elim (Bool-cases (q.id == p.id)) [
    | inl e ↦ rw e ((λ k. h q), moved p f rows h)
    | inr e ↦ rw e ((λ k. cc), moved p f rows h)
  ]

  untouched :
      (k p : SyncProfile) (f : SyncProfile → SyncProfile) (rows : List SyncProfile)
      → (k.id == p.id) ≡ false
      → ((q : SyncProfile) → (f q).id ≡ q.id)
      → All (MovedOn k) rows
      → All (MovedOn k) (modify_if (has_profile_id p.id) f rows)
  untouched k p f [] apart same m = tt
  untouched k p f (q ∷ rows) apart same (m, ms) = elim (Bool-cases (q.id == p.id)) [
    | inl e ↦ rw e ((λ t. absurd (clash q e t)), untouched k p f rows apart same ms)
    | inr e ↦ rw e (m, untouched k p f rows apart same ms)
  ]
    where
      clash : (q : SyncProfile) → (q.id == p.id) ≡ true → ((f q).id == k.id) ≢ true
      clash q e t = ground (arith, same q, eq_iff q.id p.id, eq_iff q.id k.id, eq_iff k.id p.id)

  scheduled_moves :
      (p : SyncProfile) (s : Store) (next : Scheduled)
      → following cron new_id now p ≡ next
      → All (MovedOn p) (schedule_by cron new_id now p next s).1.profiles
  scheduled_moves p s (Scheduled.at next) h =
      moved p (planned_profile cron new_id now next) s.profiles (λ q. rw h (
        refl,
        next_schedule_after-later cron p.schedule_type p.interval_minutes p.cron_expression
            p.target_timezone now next h,
      ))
  scheduled_moves p s (Scheduled.value_error e) h =
      moved p (postponed_profile cron new_id now) s.profiles (λ q. rw h refl)

  others_stay :
      (k p : SyncProfile) (s : Store) (next : Scheduled)
      → (k.id == p.id) ≡ false
      → All (MovedOn k) s.profiles
      → All (MovedOn k) (schedule_by cron new_id now p next s).1.profiles
  others_stay k p s (Scheduled.at next) apart m =
      untouched k p (planned_profile cron new_id now next) s.profiles apart (λ q. refl) m
  others_stay k p s (Scheduled.value_error e) apart m =
      untouched k p (postponed_profile cron new_id now) s.profiles apart (λ q. refl) m

  keep_moved :
      (k : SyncProfile) (ps : List SyncProfile) (s : Store)
      → All (λ (p : SyncProfile). (k.id == p.id) ≡ false) ps
      → All (MovedOn k) s.profiles
      → All (MovedOn k) (schedule_profiles cron new_id now ps s).1.profiles
  unfolding schedule_profiles
  keep_moved k [] s apart m = m
  keep_moved k (p ∷ ps) s (apart, others) m =
      keep_moved k ps (schedule_by cron new_id now p (following cron new_id now p) s).1 others
        (others_stay k p s (following cron new_id now p) apart m)

  -- Every profile that the scheduler takes up is moved on: afterwards its row is due at the instant
  -- that its schedule gives, which lies after now, and where the schedule is corrupt, 24 hours from
  -- now. The profiles that are taken up have distinct ids.
  pub schedule_profiles-MovedOn :
      (ps : List SyncProfile) (s : Store) (p : SyncProfile)
      → IsKeyed ps
      → In p ps
      → All (MovedOn p) (schedule_profiles cron new_id now ps s).1.profiles
  unfolding schedule_profiles
  schedule_profiles-MovedOn [] s p keyed m = absurd m
  schedule_profiles-MovedOn (q ∷ ps) s p (apart, keyed) (inl e) =
      let t = (schedule_by cron new_id now q (following cron new_id now q) s).1 in
      rw e (keep_moved q ps t apart (scheduled_moves q s (following cron new_id now q) refl))
  schedule_profiles-MovedOn (q ∷ ps) s p (apart, keyed) (inr m) =
      schedule_profiles-MovedOn ps (schedule_by cron new_id now q (following cron new_id now q) s).1
        p keyed m
