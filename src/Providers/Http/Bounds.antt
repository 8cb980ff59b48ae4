-- ===== src/Providers/Http/Bounds.antt =====
-- How often a request is sent, and how long it waits.
use worshiptool_churchtools.Prelude.{
  zero, suc, length, All, ◌+◌, ◌&&◌, leb, ltb, ℕ, ◌-◌, ◌*◌, ◌/◌, ◌^◌, ◌≤◌, ◌<◌, min, ◌≡◌, refl,
  Bool, true, false, Option, none, some, arith,
}
use worshiptool_churchtools.Sync.Errors.{SyncError, provider_timeout_error, network_error}
use worshiptool_churchtools.Providers.Http.Body.{Body, read_bounded_body}
use worshiptool_churchtools.Providers.Http.Request.{
  Answer, Attempt, Method, Outside, Reply, RetryPolicy, attempt_by, backoff, content_of,
  interrupted, parsed, rate_limited, server_error, Exchange, next_by, attempts_from, request_json,
}

-- The `AssertionError` at the end of the loop.
abbrev pub is_assertion : {J : Type 0} → Answer J → Bool
is_assertion Answer.assertion_error = true
is_assertion _ = false

module _ {J : Type 0} (outside : Outside J) (method : Method) (policy : RetryPolicy) where
  -- A retry is no last attempt, and its delay is within the policy.
  abbrev may_retry : ℕ → Attempt J → Bool
  may_retry attempt (Attempt.retry delay) =
      ltb attempt policy.attempts && leb delay policy.max_delay
  may_retry attempt (Attempt.finished value) = true
  may_retry attempt (Attempt.failed e) = true
  may_retry attempt Attempt.undecodable = true

  module _ (within : (n low high : ℕ) → low ≤ high → outside.uniform n low high ≤ high) where
    backoff-le :
        (write : Bool) (attempt : ℕ)
        → backoff outside method write policy attempt ≤ policy.max_delay
    unfolding backoff
    backoff-le write attempt =
        let high = min policy.max_delay (policy.base_delay * 2 ^ (attempt - 1)) in
        omega (arith, within attempt (high / 2) high (omega arith))

    may_retry-interrupted :
        (write : Bool) (attempt : ℕ) (e : SyncError)
        → may_retry attempt (interrupted outside method write policy attempt e) ≡ true
    may_retry-interrupted write attempt e = ground (arith, backoff-le write attempt)

    may_retry-parsed :
        (write : Bool) (attempt : ℕ) (value : Option J)
        → may_retry attempt (parsed outside method write policy value) ≡ true
    may_retry-parsed write attempt none = refl
    may_retry-parsed write attempt (some value) = refl

    may_retry-content :
        (write : Bool) (attempt : ℕ) (body : Body)
        → may_retry attempt (content_of outside method write policy attempt body) ≡ true
    may_retry-content write attempt Body.schema_drift = refl
    may_retry-content write attempt Body.undecodable = refl
    may_retry-content write attempt Body.timeout =
        may_retry-interrupted write attempt provider_timeout_error
    may_retry-content write attempt Body.transport =
        may_retry-interrupted write attempt network_error
    may_retry-content write attempt (Body.bytes content) =
        ground (arith, may_retry-parsed write attempt (outside.loads content))

    may_retry-rate_limited :
        (write : Bool) (attempt : ℕ) (retry_after : Option ℕ)
        → may_retry attempt (rate_limited outside method write policy attempt retry_after) ≡ true
    may_retry-rate_limited write attempt none = ground (arith, backoff-le write attempt)
    may_retry-rate_limited write attempt (some seconds) = ground arith

    may_retry-server_error :
        (write : Bool) (attempt : ℕ)
        → may_retry attempt (server_error outside method write policy attempt) ≡ true
    may_retry-server_error write attempt = ground (arith, backoff-le write attempt)

    may_retry-attempt :
        (write : Bool) (attempt : ℕ) (reply : Reply)
        → may_retry attempt (attempt_by outside method write policy attempt reply) ≡ true
    unfolding attempt_by
    may_retry-attempt write attempt (Reply.response r) = ground (
      arith,
      may_retry-rate_limited write attempt r.retry_after,
      may_retry-server_error write attempt,
      may_retry-content write attempt (read_bounded_body r),
    )
    may_retry-attempt write attempt Reply.timed_out =
        may_retry-interrupted write attempt provider_timeout_error
    may_retry-attempt write attempt Reply.unreachable =
        may_retry-interrupted write attempt network_error

    -- What holds of an exchange that may send a number of requests.
    pub record IsBounded (n : ℕ) (e : Exchange J) : Type 0 where
      pub short : length e.delays < n
      pub waits : All (λ d. d ≤ policy.max_delay) e.delays
      pub reachable : is_assertion e.result ≡ false

    next_by-IsBounded :
        (write : Bool) (attempt n : ℕ) (a : Attempt J) (rest : Exchange J)
        → may_retry attempt a ≡ true
        → (attempt < policy.attempts → IsBounded n rest)
        → IsBounded (suc n) (next_by outside method write policy a rest)
    next_by-IsBounded write attempt n (Attempt.finished value) rest h k = record {
      short = omega arith;
      waits = tt;
      reachable = refl;
    }
    next_by-IsBounded write attempt n (Attempt.failed e) rest h k = record {
      short = omega arith;
      waits = tt;
      reachable = refl;
    }
    next_by-IsBounded write attempt n Attempt.undecodable rest h k = record {
      short = omega arith;
      waits = tt;
      reachable = refl;
    }
    next_by-IsBounded write attempt n (Attempt.retry delay) rest h k =
        let bounded = k (ground (arith, h)) in
        record {
          short = omega (arith, bounded.short);
          waits = (ground (arith, h), bounded.waits);
          reachable = bounded.reachable;
        }

    attempts_from-IsBounded :
        (write : Bool) (left attempt : ℕ) (reply : ℕ → Reply)
        → attempt + left ≡ policy.attempts
        → IsBounded (suc left) (attempts_from outside method write policy (suc left) attempt reply)
    unfolding attempts_from
    attempts_from-IsBounded write zero attempt reply h =
        next_by-IsBounded write attempt 0
          (attempt_by outside method write policy attempt (reply attempt)) _
          (may_retry-attempt write attempt (reply attempt)) (λ k. absurd (omega (arith, h, k)))
    attempts_from-IsBounded write (suc left) attempt reply h =
        next_by-IsBounded write attempt (suc left)
          (attempt_by outside method write policy attempt (reply attempt)) _
          (may_retry-attempt write attempt (reply attempt))
          (λ k. attempts_from-IsBounded write left (attempt + 1) reply (omega (arith, h)))

    all_attempts :
        (write : Bool) (reply : ℕ → Reply) (n : ℕ)
        → policy.attempts ≡ n
        → 0 < n
        → IsBounded n (attempts_from outside method write policy n 1 reply)
    all_attempts write reply zero h k = absurd (omega (arith, k))
    all_attempts write reply (suc n) h k =
        attempts_from-IsBounded write n 1 reply (omega (arith, h))

    -- A request is sent at most as often as the policy says, every delay between two attempts is
    -- within the policy's longest one, also where the provider asks for its own, and the loop never
    -- runs past its end, for every method, where the policy has an attempt and the jitter stays within
    -- its upper bound.
    pub request_json-IsBounded :
        (write : Bool) (reply : ℕ → Reply)
        → 0 < policy.attempts
        → IsBounded policy.attempts (request_json outside method write policy reply)
    unfolding request_json
    request_json-IsBounded write reply k = all_attempts write reply policy.attempts refl k
