-- ===== src/Sync/Engine/Budget.antt =====
-- How many calls that change the target a piece of the orchestrator makes at most.
use worshiptool_churchtools.Prelude.{
  ℕ, ◌+◌, ◌≤◌, ◌≡◌, Bool, true, false, List, arith, String, Dict, if◌then◌else◌,
}
use worshiptool_churchtools.Sync.Errors.{Result, ok, raise, Raised}
use worshiptool_churchtools.Sync.Engine.Trace.{
  Trace, Trace-refl, Trace-call, Trace-read, Trace-more, Trace-trans, Trace-bound,
}
use worshiptool_churchtools.Sync.Engine.Calls.{
  Call, is_write, World, Action, writes, pure, fail, and_then, ◌>>=◌, or_else, handle, perform,
  lift, close, finally, resources_of, set_resources,
}

module _ {A : Type 0} where
  -- From every world, the action makes at most `n` writes, whether it returns or raises.
  pub record Budget (n : ℕ) (m : Action A) : Type 0 where
    pub trace : (w : World) → Trace n w.calls (m w).1.calls

  pub Budget-bound :
      {n : ℕ} {m : Action A} → Budget n m → (w : World) → writes (m w).1 ≤ writes w + n
  Budget-bound b w = Trace-bound (b.trace w)

  pub Budget-pure : (a : A) → Budget 0 (pure a)
  unfolding pure
  Budget-pure a = record { trace = λ w. Trace-refl 0 w.calls }

  pub Budget-lift : (r : Result A) → Budget 0 (lift r)
  unfolding lift pure fail
  Budget-lift (ok a) = record { trace = λ w. Trace-refl 0 w.calls }
  Budget-lift (raise e) = record { trace = λ w. Trace-refl 0 w.calls }

  pub Budget-fail : (e : Raised) → Budget 0 (fail e)
  unfolding fail
  Budget-fail e = record { trace = λ w. Trace-refl 0 w.calls }

  pub Budget-write : (answer : List Call → Result A) (c : Call) → Budget 1 (perform answer c)
  unfolding perform
  Budget-write answer c = record { trace = λ w. Trace-call c w.calls }

  pub Budget-read :
      (answer : List Call → Result A) (c : Call) → is_write c ≡ false → Budget 0 (perform answer c)
  unfolding perform
  Budget-read answer c h = record { trace = λ w. Trace-read c w.calls h }

  pub Budget-more : {n k : ℕ} {m : Action A} → n ≤ k → Budget n m → Budget k m
  Budget-more h b = record { trace = λ w. Trace-more h (b.trace w) }

  or_else-Trace :
      {n k : ℕ} {old : List Call} (r : Result A × World) (f : Raised → Action A)
      → Trace n old r.1.calls
      → ((e : Raised) → Budget k (f e))
      → Trace (n + k) old (or_else r f).1.calls
  or_else-Trace (ok a, w) f t b = Trace-more (omega arith) t
  or_else-Trace (raise e, w) f t b = Trace-trans t ((b e).trace w)

  pub Budget-handle :
      {n k : ℕ} {m : Action A} {f : Raised → Action A}
      → Budget n m
      → ((e : Raised) → Budget k (f e))
      → Budget (n + k) (handle m f)
  unfolding handle
  Budget-handle {m} {f} b c = record { trace = λ w. or_else-Trace (m w) f (b.trace w) c }

pub Budget-resources : Budget 0 resources_of
unfolding resources_of
Budget-resources = record { trace = λ w. Trace-refl 0 w.calls }

pub Budget-set : (d : Dict String) → Budget 0 (set_resources d)
unfolding set_resources
Budget-set d = record { trace = λ w. Trace-refl 0 w.calls }

module _ {A : Type 0} where
  close-Trace :
      {n : ℕ} {old : List Call} (r : Result A) (s : Result (Unit {0}) × World)
      → Trace n old s.1.calls
      → Trace n old (close r s).1.calls
  close-Trace r (ok u, w) t = t
  close-Trace r (raise e, w) t = t

  pub Budget-finally :
      {n : ℕ} {m : Action A} {f : Action (Unit {0})}
      → Budget n m
      → Budget 0 f
      → Budget n (finally m f)
  unfolding finally
  Budget-finally {m} {f} b c = record {
    trace = λ w.
        close-Trace (m w).0 (f (m w).1)
          (Trace-more (omega arith) (Trace-trans (b.trace w) (c.trace (m w).1)));
  }

module _ {A B : Type 0} where
  and_then-Trace :
      {n k : ℕ} {old : List Call} (r : Result A × World) (f : A → Action B)
      → Trace n old r.1.calls
      → ((a : A) → Budget k (f a))
      → Trace (n + k) old (and_then r f).1.calls
  and_then-Trace (ok a, w) f t b = Trace-trans t ((b a).trace w)
  and_then-Trace (raise e, w) f t b = Trace-more (omega arith) t

  pub Budget-bind :
      {n k : ℕ} {m : Action A} {f : A → Action B}
      → Budget n m
      → ((a : A) → Budget k (f a))
      → Budget (n + k) (m >>= f)
  unfolding ◌>>=◌
  Budget-bind {m} {f} b c = record { trace = λ w. and_then-Trace (m w) f (b.trace w) c }

  -- One that writes nothing in front.
  pub Quiet-bind :
      {n : ℕ} {m : Action A} {f : A → Action B}
      → Budget 0 m
      → ((a : A) → Budget n (f a))
      → Budget n (m >>= f)
  Quiet-bind b c = Budget-more (omega arith) (Budget-bind b c)

  -- One with the only write in front.
  pub Loud-bind :
      {m : Action A} {f : A → Action B}
      → Budget 1 m
      → ((a : A) → Budget 0 (f a))
      → Budget 1 (m >>= f)
  Loud-bind b c = Budget-more (omega arith) (Budget-bind b c)

module _ {A : Type 0} where
  pub Budget-if :
      {n : ℕ} {m m' : Action A} (test : Bool)
      → Budget n m
      → Budget n m'
      → Budget n (if test then m else m')
  Budget-if true h k = h
  Budget-if false h k = k

  if-Trace :
      {n : ℕ} {old : List Call} (test : Bool) (r s : Result A × World)
      → Trace n old r.1.calls
      → Trace n old s.1.calls
      → Trace n old (if test then r else s).1.calls
  if-Trace true r s h k = h
  if-Trace false r s h k = k

  -- The same with a test of the world.
  pub Budget-test :
      {n : ℕ} {m m' : Action A} (test : World → Bool)
      → Budget n m
      → Budget n m'
      → Budget n (λ w. if test w then m w else m' w)
  Budget-test {m} {m'} test h k = record {
    trace = λ w. if-Trace (test w) (m w) (m' w) (h.trace w) (k.trace w);
  }

-- For actions that write nothing.
pub ruleset quiet =
    (Budget-pure, Budget-lift, Budget-read, Budget-resources, Budget-set, Budget-if, Quiet-bind)
