-- ===== src/RateLimit/Memory.antt =====
-- `InMemoryFixedWindowRateLimiter.check`. The name of a bucket, `f"{key}:{window}"`, is the pair of
-- the key and the window: the digits of the window hold no colon, so that the text tells both.
use worshiptool_churchtools.Prelude.{
  ℕ, ◌+◌, ◌-◌, ◌/◌, ◌%◌, String, Bool, List, [], ◌∷◌, if◌then◌else◌, ◌&&◌, ◌==◌, nat_eq, leb, ltb,
  max, length, select,
}

pub record RateLimitResult : Type 0 where
  pub allowed : Bool
  pub retry_after : ℕ

pub record Bucket : Type 0 where
  pub key : String
  pub window : ℕ
  pub count : ℕ

pub record Request : Type 0 where
  pub now : ℕ
  pub key : String
  pub limit : ℕ
  pub window_seconds : ℕ

abbrev pub window_of : Request → ℕ
window_of request = request.now / request.window_seconds

abbrev pub is_bucket : String → ℕ → Bucket → Bool
is_bucket key window bucket = bucket.key == key && nat_eq bucket.window window

-- `self._buckets.get(bucket_key, (0, window))`, its count
unfoldable pub count_of : String → ℕ → List Bucket → ℕ
count_of key window [] = 0
count_of key window (bucket ∷ buckets) =
    let rest = count_of key window buckets in
    if is_bucket key window bucket then bucket.count else rest

-- `self._buckets[bucket_key] = (count, window)`
unfoldable pub put_bucket : String → ℕ → ℕ → List Bucket → List Bucket
put_bucket key window count [] = record { key = key; window = window; count = count } ∷ []
put_bucket key window count (bucket ∷ buckets) =
    let rest = put_bucket key window count buckets in
    if is_bucket key window bucket
    then record { key = key; window = window; count = count } ∷ buckets
    else bucket ∷ rest

abbrev pub capacity : ℕ
capacity = 10000

-- The buckets of the window before and of those after it, once there are too many.
unfoldable pub bounded : ℕ → List Bucket → List Bucket
bounded window buckets =
    if ltb capacity (length buckets)
    then select (λ (bucket : Bucket). leb (window - 1) bucket.window) buckets
    else buckets

unfoldable pub check : Request → List Bucket → RateLimitResult × List Bucket
check request buckets =
    let window = window_of request in
    let count = count_of request.key window buckets + 1 in
    (
      record {
        allowed = leb count request.limit;
        retry_after = max 1 (request.window_seconds - request.now % request.window_seconds);
      },
      bounded window (put_bucket request.key window count buckets),
    )

-- The requests one after the other, each with its answer.
unfoldable pub check_all : List Request → List Bucket → List (Request × RateLimitResult)
check_all [] buckets = []
check_all (request ∷ requests) buckets =
    (request, (check request buckets).0) ∷ check_all requests (check request buckets).1
