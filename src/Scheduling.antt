-- ===== src/Scheduling.antt =====
-- `next_schedule_after` of backend/app/scheduling.py. An instant is the number of microseconds since
-- the epoch, in UTC. `ZoneInfo` and `croniter` are the outside's: an iterator with its next instant,
-- where each may raise. The exceptions that they document (a bad expression, a zone that is not
-- known, no instant) are all `ValueError` or `KeyError`, which the callers catch together.
use worshiptool_churchtools.Prelude.{
  ℕ, zero, suc, ◌+◌, ◌*◌, ◌≤◌, ◌<◌, String, Bool, true, false, ◌≡◌, refl, Option, none, some,
  if◌then◌else◌, ltb, ◌==◌, arith, ◌≢◌, sym, ◌∙◌, inl, inr, Option-cases,
}

pub data ScheduleError : Type 0 where
  interval_required cron_required no_future_instant raised_by_cron : ScheduleError

pub data Scheduled : Type 0 where
  at : ℕ → Scheduled
  value_error : ScheduleError → Scheduled

-- `timedelta(minutes=1)`
abbrev pub minute : ℕ
minute = 60000000

pub record Cron (I : Type 0) : Type 0 where
  -- `croniter(expression, base)` in a zone, and `get_next` in UTC; `none` where they raise
  pub start : String → String → ℕ → Option I
  pub get_next : I → Option (ℕ × I)

module _ {I : Type 0} (cron : Cron I) where
  -- The loop, `n` rounds of it.
  unfoldable pub first_future : ℕ → ℕ → I → Scheduled
  first_future zero base i = Scheduled.value_error ScheduleError.no_future_instant
  first_future (suc n) base i = elim (cron.get_next i) [
    | none ↦ Scheduled.value_error ScheduleError.raised_by_cron
    | some (t, j) ↦ let rest = first_future n base j in if ltb base t then Scheduled.at t else rest
  ]

  abbrev pub retries : ℕ
  retries = 8

  unfoldable pub next_interval : Option ℕ → ℕ → Scheduled
  next_interval none base = Scheduled.value_error ScheduleError.interval_required
  next_interval (some minutes) base =
      if ltb minutes 1
      then Scheduled.value_error ScheduleError.interval_required
      else Scheduled.at (base + minute * minutes)

  abbrev pub first_from : ℕ → Option I → Scheduled
  first_from base none = Scheduled.value_error ScheduleError.raised_by_cron
  first_from base (some i) = first_future retries base i

  unfoldable pub next_cron : Option String → String → ℕ → Scheduled
  unfolding first_future
  next_cron none zone base = Scheduled.value_error ScheduleError.cron_required
  next_cron (some expression) zone base =
      if expression == ""
      then Scheduled.value_error ScheduleError.cron_required
      else first_from base (cron.start expression zone base)

  -- `next_schedule_after`
  unfoldable pub next_schedule_after : String → Option ℕ → Option String → String → ℕ → Scheduled
  unfolding next_interval next_cron
  next_schedule_after schedule_type interval_minutes cron_expression zone after =
      if schedule_type == "interval"
      then next_interval interval_minutes after
      else if schedule_type == "cron"
      then next_cron cron_expression zone after
      else Scheduled.value_error ScheduleError.cron_required

  abbrev IsLater : ℕ → Scheduled → Type 0
  IsLater base (Scheduled.at next) = base < next
  IsLater base (Scheduled.value_error e) = Unit {0}

  IsLater-if :
      (base : ℕ) (test : Bool) (a b : Scheduled)
      → (test ≡ true → IsLater base a)
      → (test ≡ false → IsLater base b)
      → IsLater base (if test then a else b)
  IsLater-if base true a b h k = h refl
  IsLater-if base false a b h k = k refl

  first_future-IsLater : (n base : ℕ) (i : I) → IsLater base (first_future n base i)
  unfolding first_future
  first_future-IsLater zero base i = tt
  first_future-IsLater (suc n) base i = elim (Option-cases (cron.get_next i)) [
    | inl e ↦ rw (e, first_future, IsLater) tt
    | inr ((t, j), e) ↦
        rw (e, first_future)
          (IsLater-if base (ltb base t) (Scheduled.at t) (first_future n base j)
            (λ h. ground (arith, h)) (λ h. first_future-IsLater n base j))
  ]

  first_from-IsLater : (base : ℕ) (i : Option I) → IsLater base (first_from base i)
  first_from-IsLater base none = tt
  first_from-IsLater base (some i) = first_future-IsLater retries base i

  next_interval-IsLater :
      (minutes : Option ℕ) (base : ℕ) → IsLater base (next_interval minutes base)
  unfolding next_interval
  next_interval-IsLater none base = tt
  next_interval-IsLater (some minutes) base =
      IsLater-if base (ltb minutes 1) (Scheduled.value_error ScheduleError.interval_required)
        (Scheduled.at (base + minute * minutes)) (λ h. tt) (λ h. ground (arith, h))

  next_cron-IsLater :
      (expression : Option String) (zone : String) (base : ℕ)
      → IsLater base (next_cron expression zone base)
  unfolding next_cron
  next_cron-IsLater none zone base = tt
  next_cron-IsLater (some expression) zone base =
      IsLater-if base (expression == "") (Scheduled.value_error ScheduleError.cron_required)
        (first_from base (cron.start expression zone base)) (λ h. tt)
        (λ h. first_from-IsLater base (cron.start expression zone base))

  next_schedule-IsLater :
      (schedule_type : String) (interval_minutes : Option ℕ) (expression : Option String)
      (zone : String) (base : ℕ)
      → IsLater base (next_schedule_after schedule_type interval_minutes expression zone base)
  unfolding next_schedule_after
  next_schedule-IsLater schedule_type interval_minutes expression zone base =
      IsLater-if base (schedule_type == "interval") (next_interval interval_minutes base)
        (if schedule_type == "cron"
          then next_cron expression zone base
          else Scheduled.value_error ScheduleError.cron_required)
        (λ h. next_interval-IsLater interval_minutes base)
        (λ h.
          IsLater-if base (schedule_type == "cron") (next_cron expression zone base)
            (Scheduled.value_error ScheduleError.cron_required)
            (λ k. next_cron-IsLater expression zone base) (λ k. tt))

  -- An instant that is scheduled lies strictly after the one that it was asked for, for every kind of
  -- schedule and whatever the cron iterator answers.
  pub next_schedule_after-later :
      (schedule_type : String) (interval_minutes : Option ℕ) (expression : Option String)
      (zone : String) (base next : ℕ)
      → next_schedule_after schedule_type interval_minutes expression zone base ≡ Scheduled.at next
      → base < next
  next_schedule_after-later schedule_type interval_minutes expression zone base next h =
      rw h at (next_schedule-IsLater schedule_type interval_minutes expression zone base)

  -- The instants that the iterator gives, up to where it raises.
  unfoldable pub nth : ℕ → I → Option ℕ
  nth zero i = elim (cron.get_next i) [ none ↦ none | some (t, j) ↦ some t ]
  nth (suc n) i = elim (cron.get_next i) [ none ↦ none | some (t, j) ↦ nth n j ]

  nth-by :
      (i : I) (t : ℕ) (j : I)
      → cron.get_next i ≡ some (t, j)
      → (nth zero i ≡ some t) × ((n : ℕ) → nth (suc n) i ≡ nth n j)
  unfolding nth
  nth-by i t j e = (rw (e, nth) refl, λ n. rw (e, nth) refl)

  never : (i : I) (n t : ℕ) → cron.get_next i ≡ none → nth n i ≢ some t
  unfolding nth
  never i zero t e h = let raised : nth zero i ≡ none = rw (e, nth) refl in cc (raised, h)
  never i (suc n) t e h = let raised : nth (suc n) i ≡ none = rw (e, nth) refl in cc (raised, h)

  first_future-first :
      (n base next k : ℕ) (i : I)
      → k < n
      → nth k i ≡ some next
      → base < next
      → ((j t : ℕ) → j < k → nth j i ≡ some t → t ≤ base)
      → first_future n base i ≡ Scheduled.at next
  unfolding first_future
  first_future-first zero base next k i h at_k l before = absurd (omega (arith, h))
  first_future-first (suc n) base next zero i h at_k l before =
      elim (Option-cases (cron.get_next i)) [
        | inl e ↦ absurd (never i 0 next e at_k)
        | inr ((t, j), e) ↦ let (here, later) = nth-by i t j e in ground (arith, here, e, l)
      ]
  first_future-first (suc n) base next (suc k) i h at_k l before =
      elim (Option-cases (cron.get_next i)) [
        | inl e ↦ absurd (never i (suc k) next e at_k)
        | inr ((t, j), e) ↦
            let (here, later) = nth-by i t j e in
            let early : t ≤ base = before 0 t (omega arith) here in
            let rest : first_future n base j ≡ Scheduled.at next =
              first_future-first n base next k j (omega (arith, h)) (sym (later k) ∙ at_k) l
                (λ m u below found. before (suc m) u (omega (arith, below)) (later m ∙ found)) in
            ground (arith, e, early, rest)
      ]

  -- A cron schedule gives the first instant of the iterator that lies after the one that it was asked
  -- for, where it is among the first eight and the iterator raises nothing before it: an iterator that
  -- stands still at a change of the clocks for up to seven rounds does not fail the schedule.
  pub next_schedule_after-first :
      (interval_minutes : Option ℕ) (expression zone : String) (base next k : ℕ) (i : I)
      → (expression == "") ≡ false
      → cron.start expression zone base ≡ some i
      → k < retries
      → nth k i ≡ some next
      → base < next
      → ((j t : ℕ) → j < k → nth j i ≡ some t → t ≤ base)
      → next_schedule_after "cron" interval_minutes (some expression) zone base ≡ Scheduled.at next
  unfolding next_schedule_after next_cron
  next_schedule_after-first interval_minutes expression zone base next k i named started h at_k l
        before =
      rw (named, started) (first_future-first retries base next k i h at_k l before)
