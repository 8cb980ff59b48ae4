-- ===== src/Sync/Errors.antt =====
-- The typed errors of backend/app/sync/errors.py. Their messages and details are texts for people
-- and are left out; the kind and the retry mark are what the code branches on and persists.
use worshiptool_churchtools.Prelude.{Bool, true, false, ◌≡◌, ◌⊎◌, inl, inr, refl}

pub data ErrorKind : Type 0 where
  authentication authorization rate_limit network timeout not_found : ErrorKind
  conflict schema validation indeterminate_write provider concurrent_modification : ErrorKind

pub record SyncError : Type 0 where
  pub kind : ErrorKind
  pub retryable : Bool

abbrev pub authentication_error : SyncError
authentication_error = record { kind = ErrorKind.authentication; retryable = false }

abbrev pub authorization_error : SyncError
authorization_error = record { kind = ErrorKind.authorization; retryable = false }

abbrev pub rate_limit_error : SyncError
rate_limit_error = record { kind = ErrorKind.rate_limit; retryable = true }

abbrev pub network_error : SyncError
network_error = record { kind = ErrorKind.network; retryable = true }

abbrev pub provider_timeout_error : SyncError
provider_timeout_error = record { kind = ErrorKind.timeout; retryable = true }

abbrev pub schema_drift_error : SyncError
schema_drift_error = record { kind = ErrorKind.schema; retryable = false }

abbrev pub not_found_error : SyncError
not_found_error = record { kind = ErrorKind.not_found; retryable = false }

abbrev pub conflict_error : SyncError
conflict_error = record { kind = ErrorKind.conflict; retryable = false }

abbrev pub indeterminate_write_error : SyncError
indeterminate_write_error = record { kind = ErrorKind.indeterminate_write; retryable = false }

abbrev pub concurrent_modification_error : SyncError
concurrent_modification_error = record {
  kind = ErrorKind.concurrent_modification;
  retryable = false;
}

-- What a Python `except` clause can tell apart: a `SyncError`, and any other exception.
pub data Raised : Type 0 where
  sync : SyncError → Raised
  other : Raised

pub data Result {ℓ} (A : Type ℓ) : Type ℓ where
  ok : A → Result A
  raise : Raised → Result A

pub Result-cases {ℓ} :
    {A : Type ℓ} (r : Result A) → ((a : A) × (r ≡ ok a)) ⊎ ((e : Raised) × (r ≡ raise e))
Result-cases (ok a) = inl (a, refl)
Result-cases (raise e) = inr (e, refl)
