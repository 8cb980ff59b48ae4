-- ===== src/Providers/Http/Request.antt =====
-- One request with its retries.
use worshiptool_churchtools.Prelude.{
  ℕ, zero, suc, ◌+◌, ◌-◌, ◌*◌, ◌/◌, ◌^◌, min, Bool, true, false, not, Option, none, some, List, [],
  ◌∷◌, if◌then◌else◌, ◌&&◌, ◌||◌, nat_eq, ltb, leb, is_nil,
}
use worshiptool_churchtools.Sync.Errors.{
  SyncError, ErrorKind, authentication_error, authorization_error, not_found_error, conflict_error,
  rate_limit_error, network_error, provider_timeout_error, schema_drift_error,
  indeterminate_write_error,
}
use worshiptool_churchtools.Providers.Http.Body.{Body, Response, read_bounded_body}

-- The methods that the code tells apart; `other` is any method that is neither.
pub data Method : Type 0 where
  get head options delete other : Method

pub record RetryPolicy : Type 0 where
  pub attempts : ℕ
  pub base_delay : ℕ
  pub max_delay : ℕ

-- `RetryPolicy()`
abbrev pub default_policy : RetryPolicy
default_policy = record { attempts = 4; base_delay = 250000; max_delay = 4000000 }

-- What comes of one sent request.
pub data Reply : Type 0 where
  response : Response → Reply
  timed_out unreachable : Reply

abbrev pub is_read : Method → Bool
is_read Method.get = true
is_read Method.head = true
is_read Method.options = true
is_read _ = false

abbrev pub is_head : Method → Bool
is_head Method.head = true
is_head _ = false

abbrev pub is_delete : Method → Bool
is_delete Method.delete = true
is_delete _ = false

-- `SyncError(…)` itself
abbrev pub provider_error : Bool → SyncError
provider_error retryable = record { kind = ErrorKind.provider; retryable = retryable }

-- What an attempt ends with: the result, or a delay before the next one.
pub data Attempt (J : Type 0) : Type 0 where
  finished : Option J → Attempt J
  failed : SyncError → Attempt J
  retry : ℕ → Attempt J
  -- `httpx.DecodingError`, which no handler of the loop catches
  undecodable : Attempt J

-- `json.loads`, and `random.uniform` for the delay before an attempt.
pub record Outside (J : Type 0) : Type 0 where
  pub loads : List ℕ → Option J
  pub uniform : ℕ → ℕ → ℕ → ℕ

module _ {J : Type 0} (outside : Outside J) (method : Method) (write : Bool)
    (policy : RetryPolicy) where
  -- `safe`
  abbrev pub is_safe : Bool
  is_safe = is_read method && not write

  -- `_backoff`
  unfoldable pub backoff : ℕ → ℕ
  backoff attempt =
      let maximum = min policy.max_delay (policy.base_delay * 2 ^ (attempt - 1)) in
      outside.uniform attempt (maximum / 2) maximum

  -- An error of a read, which a write does not tell from success.
  abbrev pub unless_write : SyncError → Attempt J
  unless_write e = Attempt.failed (if write then indeterminate_write_error else e)

  abbrev pub without_content : Attempt J
  without_content =
      if write && not (is_delete method)
      then Attempt.failed indeterminate_write_error
      else Attempt.finished none

  -- The handler of a timeout or of a transport error.
  abbrev pub interrupted : ℕ → SyncError → Attempt J
  interrupted attempt e =
      if write
      then Attempt.failed indeterminate_write_error
      else if ltb attempt policy.attempts
      then Attempt.retry (backoff attempt)
      else Attempt.failed e

  abbrev pub parsed : Option J → Attempt J
  parsed none = unless_write schema_drift_error
  parsed (some value) = Attempt.finished (some value)

  abbrev pub content_of : ℕ → Body → Attempt J
  content_of attempt Body.schema_drift = unless_write schema_drift_error
  content_of attempt Body.timeout = interrupted attempt provider_timeout_error
  content_of attempt Body.transport = interrupted attempt network_error
  content_of attempt Body.undecodable = Attempt.undecodable
  content_of attempt (Body.bytes content) =
      if is_nil content then without_content else parsed (outside.loads content)

  -- The delay of a `Retry-After`.
  abbrev pub is_too_long : Option ℕ → Bool
  is_too_long none = false
  is_too_long (some seconds) = ltb policy.max_delay seconds

  abbrev pub or_backoff : ℕ → Option ℕ → ℕ
  or_backoff attempt none = backoff attempt
  or_backoff attempt (some seconds) = seconds

  abbrev pub rate_limited : ℕ → Option ℕ → Attempt J
  rate_limited attempt retry_after =
      if is_too_long retry_after
      then Attempt.failed rate_limit_error
      else if is_safe && ltb attempt policy.attempts
      then Attempt.retry (or_backoff attempt retry_after)
      else Attempt.failed rate_limit_error

  abbrev pub server_error : ℕ → Attempt J
  server_error attempt =
      if write
      then Attempt.failed indeterminate_write_error
      else if is_safe && ltb attempt policy.attempts
      then Attempt.retry (backoff attempt)
      else Attempt.failed (provider_error true)

  -- The tests of the status, in their order.
  abbrev pub classify : ℕ → Response → Attempt J
  classify attempt r =
      if nat_eq r.status_code 401
      then Attempt.failed authentication_error
      else if nat_eq r.status_code 403
      then Attempt.failed authorization_error
      else if nat_eq r.status_code 404
      then Attempt.failed not_found_error
      else if nat_eq r.status_code 409
      then Attempt.failed conflict_error
      else if nat_eq r.status_code 429
      then rate_limited attempt r.retry_after
      else if leb 500 r.status_code
      then server_error attempt
      else if ltb r.status_code 200 || leb 300 r.status_code
      then Attempt.failed (provider_error false)
      else if nat_eq r.status_code 204 || is_head method
      then without_content
      else content_of attempt (read_bounded_body r)

  -- The body of the loop.
  unfoldable pub attempt_by : ℕ → Reply → Attempt J
  attempt_by attempt (Reply.response r) = classify attempt r
  attempt_by attempt Reply.timed_out = interrupted attempt provider_timeout_error
  attempt_by attempt Reply.unreachable = interrupted attempt network_error

-- What the loop returns or raises.
pub data Answer (J : Type 0) : Type 0 where
  returned : Option J → Answer J
  failed : SyncError → Answer J
  decoding_error assertion_error : Answer J

-- The answer, with the delays that were slept; one more request was sent than there are delays.
pub record Exchange (J : Type 0) : Type 0 where
  pub result : Answer J
  pub delays : List ℕ

module _ {J : Type 0} (outside : Outside J) (method : Method) (write : Bool)
    (policy : RetryPolicy) where
  abbrev pub after_delay : ℕ → Exchange J → Exchange J
  after_delay delay e = record e { delays = delay ∷ e.delays }

  abbrev pub next_by : Attempt J → Exchange J → Exchange J
  next_by (Attempt.finished value) rest = record { result = Answer.returned value; delays = [] }
  next_by (Attempt.failed e) rest = record { result = Answer.failed e; delays = [] }
  next_by Attempt.undecodable rest = record { result = Answer.decoding_error; delays = [] }
  next_by (Attempt.retry delay) rest = after_delay delay rest

  -- The loop from an attempt on, with the replies to the attempts; at its end it raises the
  -- `AssertionError`.
  unfoldable pub attempts_from : ℕ → ℕ → (ℕ → Reply) → Exchange J
  attempts_from zero attempt reply = record { result = Answer.assertion_error; delays = [] }
  attempts_from (suc left) attempt reply =
      next_by (attempt_by outside method write policy attempt (reply attempt))
        (attempts_from left (attempt + 1) reply)

  -- `request_json`
  unfoldable pub request_json : (ℕ → Reply) → Exchange J
  unfolding attempts_from
  request_json reply = attempts_from policy.attempts 1 reply
