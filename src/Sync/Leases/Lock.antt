-- ===== src/Sync/Leases/Lock.antt =====
-- The leases as locks: each lease is held by one token or free.
use worshiptool_churchtools.Prelude.{
  ◌<◌, ◌≡◌, refl, sym, ap, ◌∙◌, String, Bool, true, false, Option, none, some, List, [], ◌∷◌,
  if◌then◌else◌, ◌==◌, arith, eq_iff, All, Bool-cases, inl, inr,
}
use worshiptool_churchtools.Sync.Leases.Redis.{Redis}
use worshiptool_churchtools.Sync.Leases.Manager.{
  Call, Operation, acquire, release, release_script, renew, renew_script, perform, perform_by,
}

-- What an operation does to the lock, and its answer.
unfoldable pub lock_by : Operation → String → Option String → Option Bool × Option String
lock_by Operation.acquires token none = (some true, some token)
lock_by Operation.acquires token (some holder) = (some false, some holder)
lock_by Operation.releases token none = (none, none)
lock_by Operation.releases token (some holder) =
    (none, if holder == token then none else some holder)
lock_by Operation.renews token none = (some false, none)
lock_by Operation.renews token (some holder) = (some (holder == token), some holder)

cons_cong : {x y : Option Bool} {xs ys : List (Option Bool)} → x ≡ y → xs ≡ ys → x ∷ xs ≡ y ∷ ys
cons_cong h k = cc

module _ {S : Type 0} (redis : Redis S) (key : String → String → String) where
  -- The name of the lease that a call is about.
  abbrev pub name_of : Call → String
  name_of c = key c.connection_id c.event_id

  -- The answers to the calls that are about one lease, while all calls are performed.
  unfoldable pub answers : String → List Call → S → List (Option Bool)
  answers name [] s = []
  answers name (c ∷ calls) s =
      let rest = answers name calls (perform redis key c s).1 in
      if name_of c == name then (perform redis key c s).0 ∷ rest else rest

  unfoldable pub lock_answers : String → List Call → Option String → List (Option Bool)
  lock_answers name [] holder = []
  lock_answers name (c ∷ calls) holder =
      let own = lock_answers name calls (lock_by c.operation c.token holder).1 in
      let others = lock_answers name calls holder in
      if name_of c == name then (lock_by c.operation c.token holder).0 ∷ own else others

  perform-own :
      (operation : Operation) (c : Call) (s : S) (holder : Option String)
      → 0 < c.ttl
      → redis.get (name_of c) s ≡ holder
      → ((perform_by redis key operation c s).0 ≡ (lock_by operation c.token holder).0)
        × (redis.get (name_of c) (perform_by redis key operation c s).1
            ≡ (lock_by operation c.token holder).1)
  unfolding perform_by acquire release release_script renew renew_script lock_by
  perform-own Operation.acquires c s none h k =
      let (x, y) = redis.set_free (name_of c) c.token c.ttl s h k in (ap some x, y)
  perform-own Operation.acquires c s (some holder) h k =
      let (x, y) = redis.set_taken (name_of c) c.token holder c.ttl s h k in (ap some x, y)
  perform-own Operation.releases c s none h k = (refl, rw k k)
  perform-own Operation.releases c s (some holder) h k = elim (Bool-cases (holder == c.token)) [
    | inl e ↦ rw (k, e) (refl, redis.get_del (name_of c) s)
    | inr e ↦ rw (k, e) (refl, k)
  ]
  perform-own Operation.renews c s none h k = rw k (refl, k)
  perform-own Operation.renews c s (some holder) h k = elim (Bool-cases (holder == c.token)) [
    | inl e ↦
        rw (k, e)
          (
            ap some (redis.expire_there (name_of c) holder c.ttl s k),
            redis.get_expire (name_of c) (name_of c) c.ttl s h ∙ k,
          )
    | inr e ↦ rw (k, e) (refl, k)
  ]

  perform-other :
      (operation : Operation) (c : Call) (name : String) (s : S)
      → 0 < c.ttl
      → (name_of c == name) ≡ false
      → redis.get name (perform_by redis key operation c s).1 ≡ redis.get name s
  unfolding perform_by acquire release release_script renew renew_script
  perform-other Operation.acquires c name s h k = redis.set_other (name_of c) name c.token c.ttl s k
  perform-other Operation.releases c name s h k =
      ground (arith, redis.del_other (name_of c) name s k)
  perform-other Operation.renews c name s h k =
      ground (arith, redis.get_expire (name_of c) name c.ttl s h)

  -- Each lease of the manager is a lock: whatever calls the workers make, on this and on other
  -- leases, the answers about one lease are those of a lock that is free or held by one token, where
  -- every time to live is positive and none runs out in between. So a lease that is held is not
  -- acquired again, is renewed by its holder only, and is freed by its holder only.
  pub answers-lock_answers :
      (name : String) (calls : List Call) (s : S) (holder : Option String)
      → All (λ (c : Call). 0 < c.ttl) calls
      → redis.get name s ≡ holder
      → answers name calls s ≡ lock_answers name calls holder
  unfolding answers lock_answers perform
  answers-lock_answers name [] s holder h k = refl
  answers-lock_answers name (c ∷ calls) s holder (h, hs) k = elim (Bool-cases (name_of c == name)) [
    | inl e ↦
        let same = (eq_iff (name_of c) name).0 e in
        let (x, y) =
          perform-own c.operation c s holder h (ap (λ (n : String). redis.get n s) same ∙ k) in
        rw e (
          cons_cong x (
            answers-lock_answers name calls (perform_by redis key c.operation c s).1
              (lock_by c.operation c.token holder).1 hs
              (ap (λ (n : String). redis.get n (perform_by redis key c.operation c s).1) (sym same)
                ∙ y)))
    | inr e ↦ rw e (
        answers-lock_answers name calls (perform_by redis key c.operation c s).1 holder hs
          (perform-other c.operation c name s h e ∙ k))
  ]
