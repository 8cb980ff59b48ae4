-- ===== src/Sync/Engine/Run/Guard.antt =====
-- Calls among which every write comes after a durable plan, and the actions that keep it so.
use worshiptool_churchtools.Prelude.{
  ℕ, ◌≤◌, ◌≡◌, refl, Bool, true, false, not, ◌&&◌, ◌||◌, List, [], ◌∷◌, ◌++◌, Option, some, arith,
  count_if, if◌then◌else◌,
}
use worshiptool_churchtools.Sync.Errors.{Result, ok, raise, Raised}
use worshiptool_churchtools.Sync.Models.{SyncPlan}
use worshiptool_churchtools.Sync.Platform.{Platform}
use worshiptool_churchtools.Sync.Fingerprints.{Digests}
use worshiptool_churchtools.Sync.Engine.Calls.{
  Call, Ports, World, Action, is_write, and_then, or_else, handle, ◌>>=◌, perform, pure,
}
use worshiptool_churchtools.Sync.Engine.Trace.{Trace}
use worshiptool_churchtools.Sync.Engine.Budget.{Budget}
use worshiptool_churchtools.Sync.Engine.Run.{Intake, persist}

-- An answer that is no exception.
abbrev pub is_ok : {A : Type 0} → Result A → Bool
is_ok (ok a) = true
is_ok (raise e) = false

abbrev pub is_persist : Call → Bool
is_persist (Call.persist_plan plan) = true
is_persist _ = false

abbrev pub is_stored : Result (Option SyncPlan) → Bool
is_stored (ok (some plan)) = true
is_stored _ = false

abbrev pub is_load : Call → Bool
is_load Call.load_plan = true
is_load _ = false

module _ (ports : Ports) (intake : Intake) where
  -- Whether the calls show that the repository has a plan: it was persisted without an exception,
  -- or loaded.
  unfoldable pub is_durable : List Call → Bool
  is_durable [] = false
  is_durable (c ∷ calls) =
      let rest = is_durable calls in
      (is_persist c && is_ok (ports.done (c ∷ calls)))
      || (is_load c && is_stored (intake.stored (c ∷ calls)))
      || rest

  -- Whether every write comes after such a call.
  unfoldable pub is_guarded : List Call → Bool
  is_guarded [] = true
  is_guarded (c ∷ calls) =
      let rest = is_guarded calls in rest && (not (is_write c) || is_durable calls)

  is_durable-append :
      (added old : List Call) → is_durable old ≡ true → is_durable (added ++ old) ≡ true
  unfolding is_durable
  is_durable-append [] old h = h
  is_durable-append (c ∷ added) old h = ground (arith, is_durable-append added old h)

  is_guarded-append :
      (added old : List Call)
      → is_durable old ≡ true
      → is_guarded old ≡ true
      → is_guarded (added ++ old) ≡ true
  unfolding is_guarded
  is_guarded-append [] old h k = k
  is_guarded-append (c ∷ added) old h k =
      ground (arith, is_durable-append added old h, is_guarded-append added old h k)

  is_guarded-quiet :
      (added old : List Call)
      → count_if is_write added ≤ 0
      → is_guarded old ≡ true
      → is_guarded (added ++ old) ≡ true
  unfolding is_guarded
  is_guarded-quiet [] old h k = k
  is_guarded-quiet (c ∷ added) old h k = ground (arith, is_guarded-quiet added old)

  -- After a durable plan everything is guarded.
  pub Trace-free :
      {n : ℕ} {old new : List Call}
      → Trace n old new
      → is_durable old ≡ true
      → is_guarded old ≡ true
      → is_guarded new ≡ true
  Trace-free {old} t h k = rw t.joined (is_guarded-append t.added old h k)

  Trace-durable :
      {n : ℕ} {old new : List Call}
      → Trace n old new
      → is_durable old ≡ true
      → is_durable new ≡ true
  Trace-durable {old} t h = rw t.joined (is_durable-append t.added old h)

  Trace-quiet :
      {old new : List Call} → Trace 0 old new → is_guarded old ≡ true → is_guarded new ≡ true
  Trace-quiet {old} t k = rw t.joined (is_guarded-quiet t.added old t.few k)

  -- What holds when an action ends: its writes were guarded, and where it returns, the plan is
  -- durable.
  pub record Secured (A : Type 0) (r : Result A × World) : Type 0 where
    pub guarded : is_guarded r.1.calls ≡ true
    pub durable : is_ok r.0 ≡ true → is_durable r.1.calls ≡ true

  module _ {A : Type 0} where
    pub record Safe (m : Action A) : Type 0 where
      pub safe : (w : World) → is_guarded w.calls ≡ true → is_guarded (m w).1.calls ≡ true

    -- The same after a durable plan.
    pub record Free (m : Action A) : Type 0 where
      pub free :
          (w : World)
          → is_durable w.calls ≡ true
          → is_guarded w.calls ≡ true
          → is_guarded (m w).1.calls ≡ true

    pub record Secures (m : Action A) : Type 0 where
      pub secures : (w : World) → is_guarded w.calls ≡ true → Secured A (m w)

    pub Safe-quiet : {m : Action A} → Budget 0 m → Safe m
    Safe-quiet b = record { safe = λ w h. Trace-quiet (b.trace w) h }

    pub Free-Budget : {n : ℕ} {m : Action A} → Budget n m → Free m
    Free-Budget b = record { free = λ w h k. Trace-free (b.trace w) h k }

    or_else-Safe :
        (r : Result A × World) (f : Raised → Action A)
        → is_guarded r.1.calls ≡ true
        → ((e : Raised) → Safe (f e))
        → is_guarded (or_else r f).1.calls ≡ true
    or_else-Safe (ok a, w) f h s = h
    or_else-Safe (raise e, w) f h s = (s e).safe w h

    pub Safe-handle :
        {m : Action A} {f : Raised → Action A}
        → Safe m
        → ((e : Raised) → Safe (f e))
        → Safe (handle m f)
    unfolding handle
    Safe-handle {m} {f} s t = record { safe = λ w h. or_else-Safe (m w) f (s.safe w h) t }

    pub Free-if : {m m' : Action A} (test : Bool) → Free m → Free m' → Free (if test then m else m')
    Free-if true h k = h
    Free-if false h k = k

    -- With the plan durable from the start.
    pub Budget-Secured :
        {n : ℕ} {m : Action A}
        → Budget n m
        → (w : World) → is_guarded w.calls ≡ true
        → is_durable w.calls ≡ true
        → Secured A (m w)
    Budget-Secured b w h k = record {
      guarded = Trace-free (b.trace w) k h;
      durable = λ t. Trace-durable (b.trace w) k;
    }

  module _ {A B : Type 0} where
    and_then-Safe :
        (r : Result A × World) (f : A → Action B)
        → is_guarded r.1.calls ≡ true
        → ((a : A) → Safe (f a))
        → is_guarded (and_then r f).1.calls ≡ true
    and_then-Safe (ok a, w) f h s = (s a).safe w h
    and_then-Safe (raise e, w) f h s = h

    pub Safe-bind :
        {m : Action A} {f : A → Action B} → Safe m → ((a : A) → Safe (f a)) → Safe (m >>= f)
    unfolding ◌>>=◌
    Safe-bind {m} {f} s t = record { safe = λ w h. and_then-Safe (m w) f (s.safe w h) t }

    pub Free-bind :
        {m : Action A} {f : A → Action B} → Free m → ((a : A) → Safe (f a)) → Free (m >>= f)
    unfolding ◌>>=◌
    Free-bind {m} {f} s t = record { free = λ w h k. and_then-Safe (m w) f (s.free w h k) t }

    and_then-Free :
        (r : Result A × World) (f : A → Action B)
        → Secured A r
        → ((a : A) → Free (f a))
        → is_guarded (and_then r f).1.calls ≡ true
    and_then-Free (ok a, w) f h s = (s a).free w (h.durable refl) h.guarded
    and_then-Free (raise e, w) f h s = h.guarded

    pub Secures-bind :
        {m : Action A} {f : A → Action B} → Secures m → ((a : A) → Free (f a)) → Safe (m >>= f)
    unfolding ◌>>=◌
    Secures-bind {m} {f} s t = record { safe = λ w h. and_then-Free (m w) f (s.secures w h) t }

    and_then-Secured :
        (r : Result A × World) (f : A → Action B)
        → is_guarded r.1.calls ≡ true
        → ((a : A) → Secures (f a))
        → Secured B (and_then r f)
    and_then-Secured (ok a, w) f h s = (s a).secures w h
    and_then-Secured (raise e, w) f h s = record { guarded = h; durable = λ k. cc }

    pub Safe-Secures :
        {m : Action A} {f : A → Action B} → Safe m → ((a : A) → Secures (f a)) → Secures (m >>= f)
    unfolding ◌>>=◌
    Safe-Secures {m} {f} s t = record { secures = λ w h. and_then-Secured (m w) f (s.safe w h) t }

  persisted :
      (plan : SyncPlan) (r : Result (Unit {0})) (w : World)
      → is_guarded w.calls ≡ true
      → (is_ok r ≡ true → is_durable w.calls ≡ true)
      → Secured SyncPlan (and_then (r, w) (λ _. pure plan))
  unfolding pure
  persisted plan (ok u) w h k = record { guarded = h; durable = λ t. k refl }
  persisted plan (raise e) w h k = record { guarded = h; durable = λ t. cc }

  pub Secures-persist :
      (p : Platform) (digests : Digests) (plan : SyncPlan)
      → Secures (persist p digests ports intake plan)
  unfolding persist ◌>>=◌ perform is_guarded is_durable
  Secures-persist p digests plan = record {
    secures = λ w h.
        let calls : List Call = Call.persist_plan plan ∷ w.calls in
        persisted plan (ports.done calls) (record w { calls = calls }) (ground (arith, h))
          (λ k. ground (arith, k));
  }
