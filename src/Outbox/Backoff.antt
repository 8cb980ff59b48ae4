-- ===== src/Outbox/Backoff.antt =====
-- The delays between attempts, and the end of a message that can never be delivered.
use native.Mathlib.Nat.{one-le-pow}
use worshiptool_churchtools.Prelude.{
  ℕ, zero, suc, ◌+◌, ◌-◌, ◌/◌, ◌≤◌, ◌<◌, ◌≡◌, String, true, false, if◌then◌else◌, leb, arith,
  Bool-cases, inl, inr,
}
use worshiptool_churchtools.Outbox.State.{
  OutboxStatus, NotificationOutbox, Settings, seconds, is_terminal,
}
use worshiptool_churchtools.Outbox.Consumer.{backoff_base, backoff_jitter, claimed, failed_item}

backoff_base_bounds :
    (attempts : ℕ) → (15 ≤ backoff_base attempts) × (backoff_base attempts ≤ 21600)
unfolding backoff_base
backoff_base_bounds attempts = let p = one-le-pow (attempts - 1) 2 (omega arith) in ground arith

jitter-le : (id base : ℕ) → backoff_jitter id base ≤ base / 4
unfolding backoff_jitter
jitter-le id base = grind arith

-- A row that failed and may be tried again waits at least fifteen seconds and at most seven and a
-- half hours, the jitter included.
pub failed_item_delay :
    (settings : Settings) (now : ℕ) (code : String) (item : NotificationOutbox)
    → item.attempts < settings.max_attempts
    → (now + seconds 15 ≤ (failed_item settings now code false item).next_attempt_at)
      × ((failed_item settings now code false item).next_attempt_at ≤ now + seconds 27000)
unfolding failed_item
failed_item_delay settings now code item h =
    let (lo, hi) = backoff_base_bounds item.attempts in
    let j = jitter-le item.id (backoff_base item.attempts) in ground arith

-- The attempts of a message that is never delivered: each claims the row and records the failure.
unfoldable pub attempts_of :
    Settings → (ℕ → ℕ) → String → String → ℕ → NotificationOutbox → NotificationOutbox
attempts_of settings time token code zero item = item
attempts_of settings time token code (suc n) item =
    let failed = failed_item settings (time n) code false (claimed settings (time n) token item) in
    let rest = attempts_of settings time token code n failed in
    if is_terminal failed.status then failed else rest

module _ (settings : Settings) (now : ℕ) (token code : String) (item : NotificationOutbox) where
  abbrev attempt : NotificationOutbox
  attempt = failed_item settings now code false (claimed settings now token item)

  attempt_dead :
      leb settings.max_attempts (item.attempts + 1) ≡ true → attempt.status ≡ OutboxStatus.dead
  unfolding failed_item
  attempt_dead h = ground arith

  attempt_failed :
      leb settings.max_attempts (item.attempts + 1) ≡ false
      → (attempt.status ≡ OutboxStatus.failed) × (attempt.attempts ≡ item.attempts + 1)
  unfolding failed_item
  attempt_failed h = ground arith

-- A message that can never be delivered is given up: after as many failures as are left of the
-- allowed attempts, its row is dead.
pub attempts_of_dead :
    (settings : Settings) (time : ℕ → ℕ) (token code : String) (n : ℕ) (item : NotificationOutbox)
    → settings.max_attempts ≤ item.attempts + suc n
    → (attempts_of settings time token code (suc n) item).status ≡ OutboxStatus.dead
unfolding attempts_of
attempts_of_dead settings time token code zero item h =
    let dead = attempt_dead settings (time 0) token code item (ground arith) in ground arith
attempts_of_dead settings time token code (suc n) item h =
    elim (Bool-cases (leb settings.max_attempts (item.attempts + 1))) [
      | inl last ↦
          let dead = attempt_dead settings (time (suc n)) token code item last in ground arith
      | inr more ↦
          let (failed, counted) = attempt_failed settings (time (suc n)) token code item more in
          let tried = attempt settings (time (suc n)) token code item in
          let rest = attempts_of_dead settings time token code n tried (omega arith) in ground arith
    ]
