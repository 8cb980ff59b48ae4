-- ===== src/Sync/Platform.antt =====
-- What the sync domain takes from outside the repository: Unicode normalisation, the time zone
-- database, the `regex` engine and SHA-256. They are parameters of the definitions that use them.
use Prim.Native.Char.{Char}
use worshiptool_churchtools.Prelude.{ℕ, String, Bool, Option, List}
use worshiptool_churchtools.Sync.Models.{AgendaItem, SyncPlan}

pub record Platform : Type 0 where
  -- `unicodedata.normalize("NFKC", value)`, `.casefold()`, `.upper()`, `character.isalnum()`
  pub nfkc : String → String
  pub casefold : String → String
  pub upper : String → String
  pub is_alnum : Char → Bool
  -- the date, as a day number, of an instant in a named zone
  pub local_date : String → ℕ → ℕ
  -- whether `ZoneInfo` knows a name, and `len(value)`
  pub valid_zone : String → Bool
  pub text_length : String → ℕ
  -- whether the `regex` package is installed, whether it compiles a pattern, and its search:
  -- `none` when the search runs into its timeout
  pub has_regex : Bool
  pub regex_compiles : String → Bool
  pub regex_search : String → String → Option Bool
  -- the hex digest of the parts joined by the unit separator, cut at 32 digits
  pub stable_digest : List String → String
  -- the hex digest of the canonical JSON of an item list
  pub agenda_digest : List AgendaItem → String
  -- the hex digest of the canonical JSON of a plan
  pub plan_digest : SyncPlan → String
