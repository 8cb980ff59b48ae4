-- ===== src/Prelude/Lists.antt =====
-- Lists: lengths over the native numbers, Boolean searches and predicates by recursion.
use Prim.Native.Nat.{ℕ, zero, suc}
use Prim.Native.String.{String}
use mathlib.Core.Path.{◌≡◌, refl}
use mathlib.Core.Logic.{◌⊎◌, inl, inr}
use mathlib.Core.Bool.{Bool, true, false, ◌&&◌, ◌||◌}
use mathlib.Core.Option.{Option, none, some}
use mathlib.Core.List.{List, [], ◌∷◌, ◌++◌}
use text.Mathlib.Text.{◌==◌}
use worshiptool_churchtools.Prelude.Tests.{if◌then◌else◌, Bool-cases}

module _ {ℓ} {A : Type ℓ} where
  abbrev pub length : List A → ℕ
  length [] = 0
  length (x ∷ xs) = suc (length xs)

  abbrev pub get_elem? : List A → ℕ → Option A
  get_elem? [] i = none
  get_elem? (x ∷ xs) zero = some x
  get_elem? (x ∷ xs) (suc i) = get_elem? xs i

  abbrev pub take : ℕ → List A → List A
  take zero xs = []
  take (suc n) [] = []
  take (suc n) (x ∷ xs) = x ∷ take n xs

  abbrev pub drop : ℕ → List A → List A
  drop zero xs = xs
  drop (suc n) [] = []
  drop (suc n) (x ∷ xs) = drop n xs

  abbrev pub is_nil : List A → Bool
  is_nil [] = true
  is_nil (x ∷ xs) = false

  -- `any(p(x) for x in xs)` and `all(p(x) for x in xs)`
  abbrev pub any : List A → (A → Bool) → Bool
  any [] p = false
  any (x ∷ xs) p = p x || any xs p

  abbrev pub all : List A → (A → Bool) → Bool
  all [] p = true
  all (x ∷ xs) p = p x && all xs p

  -- `[x for x in xs if p(x)]`
  abbrev pub select : (A → Bool) → List A → List A
  select p [] = []
  select p (x ∷ xs) = let rest = select p xs in if p x then x ∷ rest else rest

  -- `next((x for x in xs if p(x)), None)`
  abbrev pub find : (A → Bool) → List A → Option A
  find p [] = none
  find p (x ∷ xs) = let rest = find p xs in if p x then some x else rest

  -- `sum(p(x) for x in xs)`
  abbrev pub count_if : (A → Bool) → List A → ℕ
  count_if p [] = 0
  count_if p (x ∷ xs) = let rest = count_if p xs in if p x then suc rest else rest

  -- `sorted` keeps the order of elements that compare as equal, and so does this insertion sort.
  abbrev pub insert_sorted : (A → A → Bool) → A → List A → List A
  insert_sorted le x [] = x ∷ []
  insert_sorted le x (y ∷ ys) =
      let rest = insert_sorted le x ys in if le x y then x ∷ y ∷ ys else y ∷ rest

  abbrev pub sort : (A → A → Bool) → List A → List A
  sort le [] = []
  sort le (x ∷ xs) = insert_sorted le x (sort le xs)

-- `UPDATE … WHERE test`: the rows that the test holds for are changed.
module _ {ℓ} {A : Type ℓ} where
  abbrev pub modify_if : (A → Bool) → (A → A) → List A → List A
  modify_if test f [] = []
  modify_if test f (x ∷ xs) = (if test x then f x else x) ∷ modify_if test f xs

-- `x in xs`
abbrev pub member : String → List String → Bool
member x xs = any xs (λ y. y == x)

module _ {ℓ κ} {A : Type ℓ} where
  -- Every element has the property.
  abbrev pub All : (A → Type κ) → List A → Type κ
  All P [] = Unit
  All P (x ∷ xs) = P x × All P xs

  module _ (P : A → Type κ) where
    pub All-append : (xs ys : List A) → All P xs → All P ys → All P (xs ++ ys)
    All-append [] ys p q = q
    All-append (x ∷ xs) ys p q = (p.0, All-append xs ys p.1 q)

    pub All-append_left : (xs ys : List A) → All P (xs ++ ys) → All P xs
    All-append_left [] ys h = tt
    All-append_left (x ∷ xs) ys h = (h.0, All-append_left xs ys h.1)

    pub All-append_right : (xs ys : List A) → All P (xs ++ ys) → All P ys
    All-append_right [] ys h = h
    All-append_right (x ∷ xs) ys h = All-append_right xs ys h.1

-- `x` stands in the list.
abbrev pub In : {A : Type 0} → A → List A → Type 0
In x [] = ⊥
In x (y ∷ ys) = (x ≡ y) ⊎ In x ys

module _ {κ} {A : Type 0} (P : A → Type κ) where
  pub All-at : (xs : List A) → All P xs → (x : A) → In x xs → P x
  All-at [] p x m = absurd m
  All-at (y ∷ ys) p x (inl e) = rw e p.0
  All-at (y ∷ ys) p x (inr m) = All-at ys p.1 x m

  pub All-intro : (xs : List A) → ((x : A) → In x xs → P x) → All P xs
  All-intro [] f = tt
  All-intro (x ∷ xs) f = (f x (inl refl), All-intro xs (λ y m. f y (inr m)))

pub In-get_elem? : {A : Type 0} (xs : List A) (i : ℕ) (x : A) → get_elem? xs i ≡ some x → In x xs
In-get_elem? [] i x h = cc
In-get_elem? (y ∷ ys) zero x h = inl (cc)
In-get_elem? (y ∷ ys) (suc i) x h = inr (In-get_elem? ys i x h)

module _ {A : Type 0} where
  -- A row that the test does not hold for stays.
  pub In-modify_if :
      (test : A → Bool) (f : A → A) (x : A) (xs : List A)
      → In x xs
      → test x ≡ false
      → In x (modify_if test f xs)
  In-modify_if test f x [] m h = absurd m
  In-modify_if test f x (y ∷ ys) (inl e) h =
      let kept : test y ≡ false = rw (← e) h in inl (rw kept e)
  In-modify_if test f x (y ∷ ys) (inr m) h = inr (In-modify_if test f x ys m h)

  module _ {κ} (P : A → Type κ) where
    All-modify_if_head :
        (test : A → Bool) (f : A → A) (x : A)
        → ((y : A) → P y → test y ≡ true → P (f y))
        → P x
        → P (if test x then f x else x)
    All-modify_if_head test f x h k = elim (Bool-cases (test x)) [
      | inl e ↦ rw e (h x k e)
      | inr e ↦ rw e k
    ]

    pub All-modify_if :
        (test : A → Bool) (f : A → A) (xs : List A)
        → ((x : A) → P x → test x ≡ true → P (f x))
        → All P xs
        → All P (modify_if test f xs)
    All-modify_if test f [] h k = tt
    All-modify_if test f (x ∷ xs) h k =
        (All-modify_if_head test f x h k.0, All-modify_if test f xs h k.1)
