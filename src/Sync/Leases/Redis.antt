-- ===== src/Sync/Leases/Redis.antt =====
-- The commands of Redis that the leases use, on one database, with what its documentation says of
-- them at one instant: `SET name value NX EX ttl`, `GET`, `DEL` and `EXPIRE` with a positive time.
use worshiptool_churchtools.Prelude.{
  ℕ, ◌<◌, ◌≡◌, String, Bool, true, false, Option, none, some, ◌==◌,
}

pub record Redis (S : Type 0) : Type 0 where
  pub get : String → S → Option String
  pub set_nx : String → String → ℕ → S → Bool × S
  pub del : String → S → S
  -- whether the name is there, and the database with its new time
  pub expire : String → ℕ → S → Bool × S
  pub set_free :
      (name value : String) (ttl : ℕ) (s : S)
      → 0 < ttl
      → get name s ≡ none
      → ((set_nx name value ttl s).0 ≡ true) × (get name (set_nx name value ttl s).1 ≡ some value)
  pub set_taken :
      (name value holder : String) (ttl : ℕ) (s : S)
      → 0 < ttl
      → get name s ≡ some holder
      → ((set_nx name value ttl s).0 ≡ false) × (get name (set_nx name value ttl s).1 ≡ some holder)
  pub set_other :
      (name other value : String) (ttl : ℕ) (s : S)
      → (name == other) ≡ false
      → get other (set_nx name value ttl s).1 ≡ get other s
  pub get_del : (name : String) (s : S) → get name (del name s) ≡ none
  pub del_other :
      (name other : String) (s : S) → (name == other) ≡ false → get other (del name s) ≡ get other s
  pub expire_there :
      (name holder : String) (ttl : ℕ) (s : S)
      → get name s ≡ some holder
      → (expire name ttl s).0 ≡ true
  pub get_expire :
      (name other : String) (ttl : ℕ) (s : S)
      → 0 < ttl
      → get other (expire name ttl s).1 ≡ get other s
