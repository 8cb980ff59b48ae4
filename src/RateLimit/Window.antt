-- ===== src/RateLimit/Window.antt =====
-- How many requests of one key pass in one window.
use worshiptool_churchtools.Prelude.{
  ℕ, ◌+◌, ◌-◌, ◌≤◌, ◌<◌, String, Bool, true, ◌≡◌, refl, List, [], ◌∷◌, if◌then◌else◌, ◌&&◌, ◌==◌,
  nat_eq, leb, min, select, arith, eq_iff, All,
}
use worshiptool_churchtools.RateLimit.Memory.{
  Request, RateLimitResult, Bucket, window_of, count_of, put_bucket, bounded, check, check_all,
}

-- Whether an answer let a request of the key through in the window.
abbrev pub passes : String → ℕ → Request × RateLimitResult → Bool
passes key window (request, result) =
    request.key == key && nat_eq (window_of request) window && result.allowed

-- The requests that pass.
unfoldable pub passed : String → ℕ → List (Request × RateLimitResult) → ℕ
passed key window [] = 0
passed key window (entry ∷ entries) =
    let rest = passed key window entries in if passes key window entry then rest + 1 else rest

-- No request is in a window before the given one.
abbrev pub StartsAt : ℕ → List Request → Type 0
StartsAt window requests = All (λ (r : Request). window ≤ window_of r) requests

-- The windows never go back, as those of one window length never do while the clock does not.
abbrev pub IsOrdered : List Request → Type 0
IsOrdered [] = Unit {0}
IsOrdered (request ∷ requests) = StartsAt (window_of request) requests × IsOrdered requests

-- Every request of the key has at most this limit.
abbrev pub AllLimited : String → ℕ → List Request → Type 0
AllLimited key limit requests =
    All (λ (r : Request). (r.key == key) ≡ true → r.limit ≤ limit) requests

count_of-put_bucket :
    (key : String) (window : ℕ) (k : String) (v n : ℕ) (buckets : List Bucket)
    → count_of key window (put_bucket k v n buckets)
      ≡ (if (k == key && nat_eq v window) then n else count_of key window buckets)
unfolding count_of put_bucket
count_of-put_bucket key window k v n [] = ground (arith, eq_iff k key)
count_of-put_bucket key window k v n (bucket ∷ buckets) = ground (
  arith,
  eq_iff k key,
  eq_iff bucket.key k,
  eq_iff bucket.key key,
  count_of-put_bucket key window k v n buckets,
)

count_of-select :
    (key : String) (window least : ℕ) (buckets : List Bucket)
    → least ≤ window
    → count_of key window (select (λ (bucket : Bucket). leb least bucket.window) buckets)
      ≡ count_of key window buckets
unfolding count_of
count_of-select key window least [] h = refl
count_of-select key window least (bucket ∷ buckets) h =
    ground (arith, count_of-select key window least buckets h)

count_of-bounded :
    (key : String) (window v : ℕ) (buckets : List Bucket)
    → v ≤ window + 1
    → count_of key window (bounded v buckets) ≡ count_of key window buckets
unfolding bounded
count_of-bounded key window v buckets h = ground (arith, count_of-select key window (v - 1) buckets)

-- Nothing passes in a window that is over.
passed-over :
    (key : String) (window v : ℕ) (requests : List Request) (buckets : List Bucket)
    → window < v
    → StartsAt v requests
    → passed key window (check_all requests buckets) ≡ 0
unfolding passed check_all
passed-over key window v [] buckets h k = refl
passed-over key window v (request ∷ requests) buckets h (k, ks) =
    ground (arith, passed-over key window v requests (check request buckets).1 h ks)

count_of-check :
    (key : String) (window : ℕ) (request : Request) (buckets : List Bucket)
    → window_of request ≤ window + 1
    → count_of key window (check request buckets).1 ≡ (
        if (request.key == key && nat_eq (window_of request) window)
        then count_of request.key (window_of request) buckets + 1
        else count_of key window buckets)
unfolding check
count_of-check key window request buckets h = ground (
  arith,
  count_of-bounded key window (window_of request)
      (put_bucket request.key (window_of request)
        (count_of request.key (window_of request) buckets + 1) buckets)
      h,
  count_of-put_bucket key window request.key (window_of request)
      (count_of request.key (window_of request) buckets + 1) buckets,
)

-- The count of the bucket, and whether the request passes.
passes-check :
    (key : String) (window : ℕ) (request : Request) (buckets : List Bucket)
    → (passes key window (request, (check request buckets).0) ≡ (
        request.key == key
        && nat_eq (window_of request) window
        && leb (count_of key window buckets + 1) request.limit))
unfolding check
passes-check key window request buckets = ground (arith, eq_iff request.key key)

passed-within :
    (key : String) (window limit : ℕ) (requests : List Request) (buckets : List Bucket)
    → IsOrdered requests
    → AllLimited key limit requests
    → passed key window (check_all requests buckets) + min (count_of key window buckets) limit
      ≤ limit
unfolding passed check_all
passed-within key window limit [] buckets o l = ground arith
passed-within key window limit (request ∷ requests) buckets (s, o) (k, l) =
    let after = (check request buckets).1 in
    ground (
      arith,
      eq_iff request.key key,
      k,
      passes-check key window request buckets,
      count_of-check key window request buckets,
      passed-within key window limit requests after o l,
      passed-over key window (window_of request) requests after,
    )

-- In one window at most `limit` requests of one key pass, however many are made and whatever the
-- other keys do in between, where no request of the key has a greater limit and the window numbers of
-- all requests, whatever their keys and window lengths are, do not go back.
pub passed-bounded :
    (key : String) (window limit : ℕ) (requests : List Request) (buckets : List Bucket)
    → IsOrdered requests
    → AllLimited key limit requests
    → passed key window (check_all requests buckets) ≤ limit
passed-bounded key window limit requests buckets o l =
    omega (arith, passed-within key window limit requests buckets o l)
