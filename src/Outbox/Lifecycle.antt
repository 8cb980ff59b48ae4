-- ===== src/Outbox/Lifecycle.antt =====
-- The life of a row of the outbox.
use worshiptool_churchtools.Prelude.{
  ℕ, ◌≤◌, ◌<◌, ◌≡◌, refl, String, Bool, true, false, Option, none, some, ◌||◌, List, [], ◌∷◌, ◌++◌,
  ◌⊎◌, inl, inr, find, select, modify_if, is_some, arith, In, Bool-cases, Option-cases, not, ap,
  ◌∙◌,
}
use worshiptool_churchtools.Outbox.State.{
  OutboxStatus, Message, Notification, NotificationOutbox, Store, Settings, is_terminal,
  is_processing, is_claimed_by,
}
use worshiptool_churchtools.Outbox.Consumer.{
  claim_one, fail, failed_item, chosen, claimed, delivered_item, next_due,
}
use worshiptool_churchtools.Outbox.Enqueue.{Request, enqueue_outbox, new_item}
use worshiptool_churchtools.Outbox.Step.{
  cleanup, delete_outbox, delete_notifications, delete_subscriptions, rotated_item, is_expired,
  refers_to_old,
}

-- A row is consistent: a new one was never tried, one that waits for another attempt has one left,
-- a claimed one has the token of its claim and no other has one, and a delivered one has its time.
pub record IsValid (settings : Settings) (item : NotificationOutbox) : Type 0 where
  pub fresh : item.status ≡ OutboxStatus.pending → item.attempts ≡ 0
  pub retried : item.status ≡ OutboxStatus.failed → item.attempts < settings.max_attempts
  pub held : is_processing item.status ≡ true → is_some item.claim_token ≡ true
  pub free : is_processing item.status ≡ false → item.claim_token ≡ none
  pub timed : item.status ≡ OutboxStatus.delivered → is_some item.delivered_at ≡ true

-- What becomes of a row: it keeps its id, key and notification, its attempts only grow, and once it is
-- delivered or dead it stays as it is, but for its ciphertext when the encryption key is rotated.
pub record Follows (item item' : NotificationOutbox) : Type 0 where
  pub same_id : item'.id ≡ item.id
  pub same_key : item'.idempotency_key ≡ item.idempotency_key
  pub same_notification : item'.notification_id ≡ item.notification_id
  pub counted : item.attempts ≤ item'.attempts
  pub frozen :
      is_terminal item.status ≡ true
      → item' ≡ (record item { payload_encrypted = item'.payload_encrypted })

pub Follows-refl : (item : NotificationOutbox) → Follows item item
Follows-refl item = ground arith

pub Follows-trans : (a b c : NotificationOutbox) → Follows a b → Follows b c → Follows a c
Follows-trans a b c f g = record {
  same_id = cc (f.same_id, g.same_id);
  same_key = cc (f.same_key, g.same_key);
  same_notification = cc (f.same_notification, g.same_notification);
  counted = omega (arith, f.counted, g.counted);
  frozen = λ h.
      let e : b ≡ (record a { payload_encrypted = b.payload_encrypted }) = f.frozen h in
      let still : is_terminal b.status ≡ true =
        ap (λ (x : NotificationOutbox). is_terminal x.status) e ∙ h in
      g.frozen still
      ∙ ap (λ (x : NotificationOutbox). record x { payload_encrypted = c.payload_encrypted }) e;
}

pub Follows-rotated_item :
    (rotate_text : ℕ → String → String) (item : NotificationOutbox)
    → Follows item (rotated_item rotate_text item)
Follows-rotated_item rotate_text item = record {
  same_id = refl;
  same_key = refl;
  same_notification = refl;
  counted = omega arith;
  frozen = λ h. refl;
}

module _ (settings : Settings) (now : ℕ) where
  pub IsValid-claimed :
      (token : String) (item : NotificationOutbox)
      → IsValid settings item
      → IsValid settings (claimed settings now token item)
  IsValid-claimed token item v = ground arith

  pub Follows-claimed :
      (id : ℕ) (token : String) (item : NotificationOutbox)
      → chosen now id item ≡ true
      → Follows item (claimed settings now token item)
  Follows-claimed id token item h = ground arith

  pub IsValid-failed_item :
      (code : String) (permanent : Bool) (item : NotificationOutbox)
      → IsValid settings item
      → IsValid settings (failed_item settings now code permanent item)
  unfolding failed_item
  IsValid-failed_item code permanent item v = ground arith

  pub Follows-failed_item :
      (id : ℕ) (token code : String) (permanent : Bool) (item : NotificationOutbox)
      → is_claimed_by id token item ≡ true
      → Follows item (failed_item settings now code permanent item)
  unfolding failed_item
  Follows-failed_item id token code permanent item h = ground arith

  pub Follows-delivered_item :
      (id : ℕ) (token : String) (item : NotificationOutbox)
      → is_claimed_by id token item ≡ true
      → Follows item (delivered_item now item)
  Follows-delivered_item id token item h = ground arith

-- What has become of a row: it stands in the table, or it was delivered or dead when it was deleted,
-- or it was deleted with its notification.
abbrev pub Outcome : NotificationOutbox → List NotificationOutbox → Type 0
Outcome item items =
    (item' : NotificationOutbox) × Follows item item'
    × (In item' items ⊎ ((is_terminal item'.status || is_some item'.notification_id) ≡ true))

pub Outcome-here :
    (item : NotificationOutbox) (items : List NotificationOutbox)
    → In item items
    → Outcome item items
Outcome-here item items m = (item, Follows-refl item, inl m)

pub Outcome-later :
    (item first : NotificationOutbox) (items : List NotificationOutbox)
    → Outcome item items
    → Outcome item (first ∷ items)
Outcome-later item first items (item', f, inl m) = (item', f, inl (inr m))
Outcome-later item first items (item', f, inr e) = (item', f, inr e)

pub Outcome-modify_if :
    (test : NotificationOutbox → Bool) (f : NotificationOutbox → NotificationOutbox)
    (items : List NotificationOutbox) (item : NotificationOutbox)
    → ((x : NotificationOutbox) → test x ≡ true → Follows x (f x))
    → In item items
    → Outcome item (modify_if test f items)
Outcome-modify_if test f [] item h m = absurd m
Outcome-modify_if test f (x ∷ xs) item h (inl e) = elim (Bool-cases (test x)) [
  | inl t ↦ rw (e, t) (f x, h x t, inl (inl refl))
  | inr t ↦ rw (e, t) (x, Follows-refl x, inl (inl refl))
]
Outcome-modify_if test f (x ∷ xs) item h (inr m) =
    Outcome-later item _ (modify_if test f xs) (Outcome-modify_if test f xs item h m)

pub Outcome-append :
    (xs ys : List NotificationOutbox) (item : NotificationOutbox)
    → In item xs
    → Outcome item (xs ++ ys)
Outcome-append [] ys item m = absurd m
Outcome-append (x ∷ xs) ys item (inl e) = rw e (x, Follows-refl x, inl (inl refl))
Outcome-append (x ∷ xs) ys item (inr m) =
    Outcome-later item x (xs ++ ys) (Outcome-append xs ys item m)

-- A deletion that leaves the rows that are neither delivered nor dead and have no notification.
pub Outcome-select :
    (test : NotificationOutbox → Bool) (items : List NotificationOutbox) (item : NotificationOutbox)
    → ((x : NotificationOutbox)
        → test x ≡ true
        → (is_terminal x.status || is_some x.notification_id) ≡ true)
    → In item items
    → Outcome item (select (λ (x : NotificationOutbox). not (test x)) items)
Outcome-select test [] item h m = absurd m
Outcome-select test (x ∷ xs) item h (inl e) = elim (Bool-cases (test x)) [
  | inl t ↦ rw (e, t) (x, Follows-refl x, inr (h x t))
  | inr t ↦ rw (e, t) (x, Follows-refl x, inl (inl refl))
]
Outcome-select test (x ∷ xs) item h (inr m) = elim (Bool-cases (test x)) [
  | inl t ↦ rw t (Outcome-select test xs item h m)
  | inr t ↦ rw t (Outcome-later item x _ (Outcome-select test xs item h m))
]

-- The outcome after two operations in a row.
pub Outcome-then :
    (item : NotificationOutbox) (items items' : List NotificationOutbox)
    → Outcome item items
    → ((x : NotificationOutbox) → In x items → Outcome x items')
    → Outcome item items'
Outcome-then item items items' (item', f, inr done) h = (item', f, inr done)
Outcome-then item items items' (item', f, inl still) h =
    let (item'', g, last) = h item' still in (item'', Follows-trans item item' item'' f g, last)

refers-has :
    (cutoff : ℕ) (notifications : List Notification) (id : Option ℕ)
    → refers_to_old cutoff notifications id ≡ true
    → is_some id ≡ true
refers-has cutoff notifications none h = h
refers-has cutoff notifications (some id) h = refl

pub Outcome-cleanup :
    (cutoff : ℕ) (s : Store) (item : NotificationOutbox)
    → In item s.outbox
    → Outcome item (cleanup cutoff s).outbox
unfolding cleanup delete_outbox delete_notifications delete_subscriptions
Outcome-cleanup cutoff s item m =
    Outcome-then item _ _ (Outcome-select (is_expired cutoff) s.outbox item (λ x h. ground arith) m)
      (λ x n.
        Outcome-select
          (λ (y : NotificationOutbox). refers_to_old cutoff s.notifications y.notification_id) _ x
          (λ y h. ground (arith, refers-has cutoff s.notifications y.notification_id h)) n)

module _ (settings : Settings) (encrypt : Message → ℕ → String) (s : Store) where
  pub claim_one-cases :
      (now : ℕ) (token : String)
      → ((claim_one settings now token s).1 ≡ s)
        ⊎ ((id : ℕ) × ((claim_one settings now token s).1.outbox
              ≡ modify_if (chosen now id) (claimed settings now token) s.outbox))
  unfolding claim_one
  claim_one-cases now token = elim (Option-cases (next_due now s.outbox)) [
    | inl e ↦ inl (rw (e, claim_one))
    | inr (item, e) ↦ inr (item.id, rw (e, claim_one))
  ]

  pub fail-cases :
      (now id : ℕ) (token code : String) (permanent : Bool)
      → ((fail settings now id token code permanent s).1 ≡ s)
        ⊎ ((fail settings now id token code permanent s).1.outbox
            ≡ modify_if (is_claimed_by id token) (failed_item settings now code permanent) s.outbox)
  unfolding fail
  fail-cases now id token code permanent =
      elim (Option-cases (find (is_claimed_by id token) s.outbox)) [
        | inl e ↦ inl (rw (e, fail))
        | inr (item, e) ↦ inr (rw (e, fail))
      ]

  pub enqueue_outbox-cases :
      (now id : ℕ) (request : Request)
      → ((enqueue_outbox encrypt now id request s).1 ≡ s)
        ⊎ ((enqueue_outbox encrypt now id request s).1.outbox
            ≡ s.outbox ++ new_item encrypt now id request ∷ [])
  unfolding enqueue_outbox
  enqueue_outbox-cases now id request = ground arith
