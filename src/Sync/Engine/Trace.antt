-- ===== src/Sync/Engine/Trace.antt =====
-- The calls that a piece of the orchestrator adds, and how many of them change the target.
use mathlib.Core.List.{append_assoc}
use worshiptool_churchtools.Prelude.{
  ℕ, ◌+◌, ◌≤◌, ◌≡◌, refl, sym, ap, ◌∙◌, Bool, true, false, List, [], ◌∷◌, ◌++◌, arith, count_if,
  any,
}
use worshiptool_churchtools.Sync.Engine.Calls.{Call, is_write}

pub record Trace (n : ℕ) (old new : List Call) : Type 0 where
  pub added : List Call
  pub joined : new ≡ added ++ old
  pub few : count_if is_write added ≤ n

pub Trace-refl : (n : ℕ) (calls : List Call) → Trace n calls calls
Trace-refl n calls = record { added = []; joined = refl; few = omega arith }

pub Trace-call : (c : Call) (calls : List Call) → Trace 1 calls (c ∷ calls)
Trace-call c calls = record { added = c ∷ []; joined = refl; few = ground arith }

pub Trace-read : (c : Call) (calls : List Call) → is_write c ≡ false → Trace 0 calls (c ∷ calls)
Trace-read c calls h = record { added = c ∷ []; joined = refl; few = ground arith }

pub Trace-more : {n k : ℕ} {old new : List Call} → n ≤ k → Trace n old new → Trace k old new
Trace-more h t = record { added = t.added; joined = t.joined; few = omega (arith, h, t.few) }

count_if-append :
    (test : Call → Bool) (xs ys : List Call)
    → count_if test (xs ++ ys) ≡ count_if test xs + count_if test ys
count_if-append test [] ys = omega arith
count_if-append test (x ∷ xs) ys = ground (arith, count_if-append test xs ys)

pub Trace-trans : {n k : ℕ} {a b c : List Call} → Trace n a b → Trace k b c → Trace (n + k) a c
Trace-trans {a} s t = record {
  added = t.added ++ s.added;
  joined =
      t.joined
      ∙ ap (λ (xs : List Call). t.added ++ xs) s.joined
      ∙ sym (append_assoc t.added s.added a);
  few = omega (arith, count_if-append is_write t.added s.added, s.few, t.few);
}

-- The writes of a trace.
pub Trace-bound :
    {n : ℕ} {old new : List Call}
    → Trace n old new
    → count_if is_write new ≤ count_if is_write old + n
Trace-bound {old} t = rw t.joined (omega (arith, count_if-append is_write t.added old, t.few))

any-append :
    (test : Call → Bool) (xs ys : List Call) → any ys test ≡ true → any (xs ++ ys) test ≡ true
any-append test [] ys h = h
any-append test (x ∷ xs) ys h = ground (arith, any-append test xs ys h)

-- A call that was made stays made.
pub Trace-any :
    {n : ℕ} {old new : List Call} (test : Call → Bool)
    → Trace n old new
    → any old test ≡ true
    → any new test ≡ true
Trace-any {old} test t h = rw t.joined (any-append test t.added old h)
