-- ===== src/Providers/Http/Body.antt =====
-- The body of a response: `_read_bounded_body`, and `json.loads` of it, which is the outside's.
use worshiptool_churchtools.Prelude.{
  ℕ, ◌+◌, ◌*◌, Bool, true, false, Option, none, some, List, [], ◌∷◌, ◌++◌, if◌then◌else◌, ◌&&◌,
  ◌||◌, nat_eq, ltb, length, is_nil,
}

-- `Content-Length`: the decimal digits, or a text that is no decimal number.
pub data LengthHeader : Type 0 where
  absent invalid : LengthHeader
  digits : List ℕ → LengthHeader

-- How the stream of a body ends; `undecodable` is `httpx.DecodingError`, of a corrupt content coding.
pub data Ending : Type 0 where
  complete timed_out broken undecodable : Ending

pub record Response : Type 0 where
  pub status_code : ℕ
  -- `parse_retry_after` of the header
  pub retry_after : Option ℕ
  pub content_length : LengthHeader
  pub has_content_encoding : Bool
  -- the bytes, as they come in
  pub chunks : List (List ℕ)
  pub ending : Ending

-- What reading a body ends with.
pub data Body : Type 0 where
  bytes : List ℕ → Body
  schema_drift timeout transport undecodable : Body

abbrev pub max_body_bytes : ℕ
max_body_bytes = 8 * 1024 * 1024

-- `str(_MAX_BODY_BYTES)`
abbrev pub maximum_length : List ℕ
maximum_length = 8 ∷ 3 ∷ 8 ∷ 8 ∷ 6 ∷ 0 ∷ 8 ∷ []

-- `raw_length.lstrip("0")`
unfoldable pub lstrip_zeros : List ℕ → List ℕ
lstrip_zeros [] = []
lstrip_zeros (d ∷ ds) = let rest = lstrip_zeros ds in if nat_eq d 0 then rest else d ∷ ds

-- `raw_length.lstrip("0") or "0"`
unfoldable pub canonical_length : List ℕ → List ℕ
unfolding lstrip_zeros
canonical_length ds = let rest = lstrip_zeros ds in if is_nil rest then 0 ∷ [] else rest

-- `a > b`, on texts of digits
unfoldable pub greater : List ℕ → List ℕ → Bool
greater [] b = false
greater (c ∷ a) [] = true
greater (c ∷ a) (d ∷ b) = let rest = greater a b in if nat_eq c d then rest else ltb d c

unfoldable pub exceeds : List ℕ → Bool
unfolding greater
exceeds canonical =
    ltb (length maximum_length) (length canonical)
    || (nat_eq (length canonical) (length maximum_length) && greater canonical maximum_length)

-- `int(canonical_length)`
unfoldable pub value_of : List ℕ → ℕ → ℕ
value_of [] acc = acc
value_of (d ∷ ds) acc = value_of ds (acc * 10 + d)

-- The expected length, where the header is there and its number within the limit.
unfoldable pub expected_length : LengthHeader → Option (Option ℕ)
unfolding canonical_length exceeds value_of
expected_length LengthHeader.absent = some none
expected_length LengthHeader.invalid = none
expected_length (LengthHeader.digits ds) =
    let canonical = canonical_length ds in
    if exceeds canonical then none else some (some (value_of canonical 0))

abbrev pub ended : Ending → List ℕ → Body
ended Ending.complete body = Body.bytes body
ended Ending.timed_out body = Body.timeout
ended Ending.broken body = Body.transport
ended Ending.undecodable body = Body.undecodable

-- The loop over the chunks.
unfoldable pub read_chunks : List (List ℕ) → Ending → List ℕ → Body
read_chunks [] ending body = ended ending body
read_chunks (chunk ∷ chunks) ending body =
    let rest = read_chunks chunks ending (body ++ chunk) in
    if ltb max_body_bytes (length body + length chunk) then Body.schema_drift else rest

abbrev pub agrees : Option ℕ → Bool → List ℕ → Bool
agrees none encoded body = true
agrees (some expected) encoded body = encoded || nat_eq (length body) expected

abbrev pub check_length : Option ℕ → Bool → Body → Body
check_length expected encoded (Body.bytes body) =
    if agrees expected encoded body then Body.bytes body else Body.schema_drift
check_length expected encoded other = other

abbrev pub read_within : Response → Option (Option ℕ) → Body
read_within response none = Body.schema_drift
read_within response (some expected) =
    check_length expected response.has_content_encoding
      (read_chunks response.chunks response.ending [])

-- `_read_bounded_body`
unfoldable pub read_bounded_body : Response → Body
unfolding expected_length read_chunks
read_bounded_body response = read_within response (expected_length response.content_length)
