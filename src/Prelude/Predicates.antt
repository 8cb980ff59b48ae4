-- ===== src/Prelude/Predicates.antt =====
-- `All` through the list functions.
use Prim.Native.Nat.{ℕ, zero, suc}
use mathlib.Core.Path.{◌≡◌}
use mathlib.Core.Logic.{inl, inr}
use mathlib.Core.Bool.{Bool, true}
use mathlib.Core.List.{List, [], ◌∷◌, map}
use worshiptool_churchtools.Prelude.Tests.{Bool-cases}
use worshiptool_churchtools.Prelude.Lists.{All, select, sort, insert_sorted, take}

module _ {κ} {A : Type 0} (P : A → Type κ) where
  -- What is selected has the property where the test gives it.
  pub All-select :
      (p : A → Bool) (xs : List A) → All (λ x. p x ≡ true → P x) xs → All P (select p xs)
  All-select p [] h = tt
  All-select p (x ∷ xs) h = elim (Bool-cases (p x)) [
    | inl e ↦ rw e (h.0 e, All-select p xs h.1)
    | inr e ↦ rw e (All-select p xs h.1)
  ]

  pub All-insert_sorted :
      (le : A → A → Bool) (x : A) (xs : List A) → P x → All P xs → All P (insert_sorted le x xs)
  All-insert_sorted le x [] p h = (p, tt)
  All-insert_sorted le x (y ∷ ys) p h = elim (Bool-cases (le x y)) [
    | inl e ↦ rw e (p, h)
    | inr e ↦ rw e (h.0, All-insert_sorted le x ys p h.1)
  ]

  pub All-sort : (le : A → A → Bool) (xs : List A) → All P xs → All P (sort le xs)
  All-sort le [] h = tt
  All-sort le (x ∷ xs) h = All-insert_sorted le x (sort le xs) h.0 (All-sort le xs h.1)

  pub All-take : (n : ℕ) (xs : List A) → All P xs → All P (take n xs)
  All-take zero xs h = tt
  All-take (suc n) [] h = tt
  All-take (suc n) (x ∷ xs) h = (h.0, All-take n xs h.1)

module _ {κ} {A B : Type 0} (P : B → Type κ) where
  pub All-map : (f : A → B) (xs : List A) → ((x : A) → P (f x)) → All P (map f xs)
  All-map f [] h = tt
  All-map f (x ∷ xs) h = (h x, All-map f xs h)
