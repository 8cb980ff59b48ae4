-- ===== src/RateLimit/Enforce.antt =====
-- `enforce_auth_rate_limit`, over a limiter and the fallback of an environment that is no
-- production, each with a state of its own. The keyed hash of `_safe_key` is the outside's.
use worshiptool_churchtools.Prelude.{
  ℕ, ◌*◌, String, Bool, true, false, ◌≡◌, refl, Option, none, some, List, [], ◌∷◌, ◌++◌,
  if◌then◌else◌,
}
use worshiptool_churchtools.RateLimit.Memory.{RateLimitResult}

pub record AuthRatePolicy : Type 0 where
  pub window_seconds : ℕ
  pub ip_limit : ℕ
  pub identity_limit : ℕ

pub data PolicyName : Type 0 where
  register login recovery verification totp invite : PolicyName

-- `AUTH_RATE_POLICIES`
abbrev pub auth_rate_policy : PolicyName → AuthRatePolicy
auth_rate_policy PolicyName.register = record {
  window_seconds = 60 * 60;
  ip_limit = 10;
  identity_limit = 3;
}
auth_rate_policy PolicyName.login = record {
  window_seconds = 15 * 60;
  ip_limit = 60;
  identity_limit = 10;
}
auth_rate_policy PolicyName.recovery = record {
  window_seconds = 60 * 60;
  ip_limit = 20;
  identity_limit = 3;
}
auth_rate_policy PolicyName.verification = record {
  window_seconds = 60 * 60;
  ip_limit = 30;
  identity_limit = 10;
}
auth_rate_policy PolicyName.totp = record {
  window_seconds = 15 * 60;
  ip_limit = 30;
  identity_limit = 10;
}
auth_rate_policy PolicyName.invite = record {
  window_seconds = 60 * 60;
  ip_limit = 60;
  identity_limit = 3;
}

-- The scope that a key is hashed with.
pub data Scope : Type 0 where
  by_ip by_identity : Scope

-- The status of the `ProblemException`, and its `Retry-After`.
pub data Verdict : Type 0 where
  admitted : Verdict
  too_many : ℕ → Verdict
  unavailable : Verdict

-- A limiter: `none` is `RateLimitBackendUnavailable`.
pub record Limiter (S : Type 0) : Type 0 where
  pub check : String → ℕ → ℕ → S → Option RateLimitResult × S
  pub fallback : String → ℕ → ℕ → S → RateLimitResult × S

module _ {S : Type 0} (limiter : Limiter S) (production : Bool) where
  abbrev pub fall_back : String → ℕ → ℕ → Option RateLimitResult × S → Option RateLimitResult × S
  fall_back key limit window_seconds (some result, s) = (some result, s)
  fall_back key limit window_seconds (none, s) = if production then (none, s) else (
    some (limiter.fallback key limit window_seconds s).0,
    (limiter.fallback key limit window_seconds s).1,
  )

  -- One check with its fallback.
  unfoldable pub checked : String → ℕ → ℕ → S → Option RateLimitResult × S
  checked key limit window_seconds s =
      fall_back key limit window_seconds (limiter.check key limit window_seconds s)

  abbrev pub judge : (S → Verdict × S) → Option RateLimitResult × S → Verdict × S
  judge k (none, s) = (Verdict.unavailable, s)
  judge k (some result, s) =
      if result.allowed then k s else (Verdict.too_many result.retry_after, s)

  -- The loop over the checks.
  unfoldable pub enforce_checks : List (String × ℕ) → ℕ → S → Verdict × S
  unfolding checked
  enforce_checks [] window_seconds s = (Verdict.admitted, s)
  enforce_checks ((key, limit) ∷ checks) window_seconds s =
      judge (enforce_checks checks window_seconds) (checked key limit window_seconds s)

-- The checks of a policy; `safe_key` is `_safe_key` with the settings and the policy's name.
unfoldable pub checks_of :
    (PolicyName → Scope → String → String) → PolicyName → String → String → Bool → List (String × ℕ)
checks_of safe_key name ip identity include_ip =
    let policy = auth_rate_policy name in
    (if include_ip then (safe_key name Scope.by_ip ip, policy.ip_limit) ∷ [] else [])
    ++ (safe_key name Scope.by_identity identity, policy.identity_limit) ∷ []

-- `request.client.host if request.client else "unknown"`
abbrev pub ip_of : Option String → String
ip_of none = "unknown"
ip_of (some host) = host

-- `enforce_auth_rate_limit`; the request is its client's host, and `casefold` is Python's.
unfoldable pub enforce_auth_rate_limit :
    {S : Type 0}
    → Limiter S
    → Bool
    → (PolicyName → Scope → String → String)
    → (String → String)
    → Option (Option String)
    → PolicyName
    → String
    → Bool
    → S
    → Verdict × S
unfolding checks_of
enforce_auth_rate_limit limiter production safe_key casefold none name identity include_ip s =
    (Verdict.admitted, s)
enforce_auth_rate_limit limiter production safe_key casefold (some client) name identity include_ip
      s =
    enforce_checks limiter production
      (checks_of safe_key name (ip_of client) (casefold identity) include_ip)
      (auth_rate_policy name).window_seconds s

-- That the limiter itself allows each of the checks, one after the other.
unfoldable pub AllAllowed : {S : Type 0} → Limiter S → List (String × ℕ) → ℕ → S → Type 0
AllAllowed limiter [] window_seconds s = Unit {0}
AllAllowed limiter ((key, limit) ∷ checks) window_seconds s =
    ((result : RateLimitResult) × ((limiter.check key limit window_seconds s).0 ≡ some result)
      × (result.allowed ≡ true))
    × AllAllowed limiter checks window_seconds (limiter.check key limit window_seconds s).1

module _ {S : Type 0} (limiter : Limiter S) where
  admitted-cases :
      (test : Bool) (r refused : Verdict × S)
      → (if test then r else refused).0 ≡ Verdict.admitted
      → (refused.0 ≡ Verdict.admitted → false ≡ true)
      → (test ≡ true) × (r.0 ≡ Verdict.admitted)
  admitted-cases true r refused h k = (refl, h)
  admitted-cases false r refused h k = let e = k h in (e, cc)

  judge-allowed :
      (answer : Option RateLimitResult × S) (key : String) (limit window_seconds : ℕ)
      (checks : List (String × ℕ))
      → ((s : S)
          → (enforce_checks limiter true checks window_seconds s).0 ≡ Verdict.admitted
          → AllAllowed limiter checks window_seconds s)
      → (judge limiter true
          (enforce_checks limiter true checks window_seconds)
          (fall_back limiter true key limit window_seconds answer)).0
        ≡ Verdict.admitted
      → ((result : RateLimitResult) × (answer.0 ≡ some result) × (result.allowed ≡ true))
        × AllAllowed limiter checks window_seconds answer.1
  judge-allowed (none, s) key limit window_seconds checks ih h = cc
  judge-allowed (some result, s) key limit window_seconds checks ih h =
      let (allowed, rest) =
        admitted-cases result.allowed (enforce_checks limiter true checks window_seconds s)
          (Verdict.too_many result.retry_after, s) h (λ k. cc) in
      ((result, refl, allowed), ih s rest)

  enforce_checks-AllAllowed :
      (checks : List (String × ℕ)) (window_seconds : ℕ) (s : S)
      → (enforce_checks limiter true checks window_seconds s).0 ≡ Verdict.admitted
      → AllAllowed limiter checks window_seconds s
  unfolding enforce_checks AllAllowed
  enforce_checks-AllAllowed [] window_seconds s h = tt
  enforce_checks-AllAllowed ((key, limit) ∷ checks) window_seconds s h =
      judge-allowed (limiter.check key limit window_seconds s) key limit window_seconds checks
        (enforce_checks-AllAllowed checks window_seconds) h

-- In production a request is admitted only where the limiter allows each of its checks: one that is
-- refused, and one that the limiter cannot answer, both end the request.
pub enforce_auth_rate_limit-AllAllowed :
    {S : Type 0} (limiter : Limiter S) (safe_key : PolicyName → Scope → String → String)
    (casefold : String → String) (client : Option String) (name : PolicyName) (identity : String)
    (include_ip : Bool) (s : S)
    → (enforce_auth_rate_limit limiter true safe_key casefold
        (some client)
        name
        identity
        include_ip
        s).0
      ≡ Verdict.admitted
    → AllAllowed limiter
        (checks_of safe_key name (ip_of client) (casefold identity) include_ip)
        (auth_rate_policy name).window_seconds
        s
unfolding enforce_auth_rate_limit
enforce_auth_rate_limit-AllAllowed limiter safe_key casefold client name identity include_ip s h =
    enforce_checks-AllAllowed limiter
      (checks_of safe_key name (ip_of client) (casefold identity) include_ip)
      (auth_rate_policy name).window_seconds s h
