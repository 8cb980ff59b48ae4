-- ===== src/Outbox/Fencing.antt =====
-- A worker whose claim was taken over, and the requests with one key.
use worshiptool_churchtools.Prelude.{
  ℕ, true, ◌+◌, ◌≤◌, ◌≡◌, refl, String, Bool, false, none, ◌&&◌, nat_eq, All, List, [], ◌∷◌, ◌++◌,
  inl, inr, find, modify_if, count_if, arith, Bool-cases, Option-cases, if◌then◌else◌, eq_iff,
  select, not,
}
use worshiptool_churchtools.RunStore.State.{truncate}
use worshiptool_churchtools.Outbox.State.{
  OutboxStatus, Message, NotificationOutbox, Store, Settings, is_claimed_by, has_token,
}
use worshiptool_churchtools.Outbox.Consumer.{
  renew_claim, fail, failed_item, complete, chosen, claimed, delivered_item, renewed,
  touch_push_subscription, revoke_push_subscription,
}
use worshiptool_churchtools.Outbox.Enqueue.{Request, enqueue_outbox, new_item, has_idempotency_key}
use worshiptool_churchtools.Outbox.Step.{
  cleanup, delete_outbox, delete_notifications, delete_subscriptions, refers_to_old, Step, claims,
  renews, fails, completes, touches, revokes, enqueues, notifies, rotates, cleans, rotate,
  rotated_item, Reach, here, next,
}
use worshiptool_churchtools.Outbox.Lifecycle.{claim_one-cases, fail-cases}

modify_if_none :
    (test : NotificationOutbox → Bool) (f : NotificationOutbox → NotificationOutbox)
    (items : List NotificationOutbox)
    → count_if test items ≡ 0
    → modify_if test f items ≡ items
modify_if_none test f [] h = refl
modify_if_none test f (x ∷ xs) h = ground (arith, modify_if_none test f xs)

unfound :
    (test : NotificationOutbox → Bool) (items : List NotificationOutbox)
    → count_if test items ≡ 0
    → find test items ≡ none
unfound test [] h = refl
unfound test (x ∷ xs) h = ground (arith, unfound test xs)

-- No row with the id has the token of the claim.
abbrev pub IsTakenOver : ℕ → String → List NotificationOutbox → Type 0
IsTakenOver id token items =
    All (λ (x : NotificationOutbox). (nat_eq x.id id && has_token x.claim_token token) ≡ false)
      items

none_claimed :
    (id : ℕ) (token : String) (items : List NotificationOutbox)
    → IsTakenOver id token items
    → count_if (is_claimed_by id token) items ≡ 0
none_claimed id token [] h = refl
none_claimed id token (x ∷ xs) (h, hs) = ground (arith, h, none_claimed id token xs hs)

-- A worker whose token the row does not have any more, because another worker claimed it or it was
-- given up, cannot acknowledge its delivery, renew the claim or count a failure: each of these
-- reports that the claim is gone and changes no row.
pub stale_claim_fenced :
    (settings : Settings) (now id : ℕ) (token code : String) (permanent : Bool) (s : Store)
    → IsTakenOver id token s.outbox
    → (complete now id token s ≡ (OutboxStatus.failed, s))
      × (fail settings now id token code permanent s ≡ (OutboxStatus.failed, s))
      × (renew_claim settings now id token s ≡ (false, s))
unfolding complete fail renew_claim
stale_claim_fenced settings now id token code permanent s taken =
    let h = none_claimed id token s.outbox taken in
    (
      rw (modify_if_none (is_claimed_by id token) (delivered_item now) s.outbox h, h),
      rw (unfound (is_claimed_by id token) s.outbox h, fail),
      rw (modify_if_none (is_claimed_by id token) (renewed settings now) s.outbox h, h),
    )

-- The rows of a key.
abbrev rows_of : String → List NotificationOutbox → ℕ
rows_of key items = count_if (has_idempotency_key key) items

rows_of-modify_if :
    (key : String) (test : NotificationOutbox → Bool) (f : NotificationOutbox → NotificationOutbox)
    (items : List NotificationOutbox)
    → ((x : NotificationOutbox) → (f x).idempotency_key ≡ x.idempotency_key)
    → rows_of key (modify_if test f items) ≡ rows_of key items
rows_of-modify_if key test f [] h = refl
rows_of-modify_if key test f (x ∷ xs) h = elim (Bool-cases (test x)) [
  | inl t ↦ rw (t, h x, rows_of-modify_if key test f xs h)
  | inr t ↦ rw (t, rows_of-modify_if key test f xs h)
]

rows_of-append :
    (key : String) (xs : List NotificationOutbox) (x : NotificationOutbox)
    → rows_of key (xs ++ x ∷ []) ≡ rows_of key xs + (if has_idempotency_key key x then 1 else 0)
rows_of-append key [] x = ground arith
rows_of-append key (y ∷ ys) x = ground (arith, rows_of-append key ys x)

rows_of-find :
    (key : String) (items : List NotificationOutbox)
    → find (has_idempotency_key key) items ≡ none
    → rows_of key items ≡ 0
rows_of-find key [] h = refl
rows_of-find key (x ∷ xs) h = ground (arith, rows_of-find key xs)

rows_of-select :
    (key : String) (test : NotificationOutbox → Bool) (items : List NotificationOutbox)
    → rows_of key (select test items) ≤ rows_of key items
rows_of-select key test [] = omega arith
rows_of-select key test (x ∷ xs) = elim (Bool-cases (test x)) [
  | inl t ↦ rw t (ground (arith, rows_of-select key test xs))
  | inr t ↦ rw t (ground (arith, rows_of-select key test xs))
]

rows_of-cleanup :
    (key : String) (cutoff : ℕ) (s : Store)
    → rows_of key (cleanup cutoff s).outbox ≤ rows_of key s.outbox
unfolding cleanup delete_outbox delete_notifications delete_subscriptions
rows_of-cleanup key cutoff s = omega (
  arith,
  rows_of-select key _ s.outbox,
  rows_of-select key
      (λ (item : NotificationOutbox).
        not (refers_to_old cutoff s.notifications item.notification_id))
      (delete_outbox cutoff s).outbox,
)

module _ (settings : Settings) (encrypt : Message → ℕ → String) where
  failed_item-key :
      (now : ℕ) (code : String) (permanent : Bool) (x : NotificationOutbox)
      → (failed_item settings now code permanent x).idempotency_key ≡ x.idempotency_key
  unfolding failed_item
  failed_item-key now code permanent x = ground arith

  abbrev OnePerKey : Store → Type 0
  OnePerKey s = (key : String) → rows_of key s.outbox ≤ 1

  OnePerKey-enqueue :
      (now id : ℕ) (request : Request) (s : Store)
      → OnePerKey s
      → OnePerKey (enqueue_outbox encrypt now id request s).1
  unfolding enqueue_outbox
  OnePerKey-enqueue now id request s h key =
      let k = truncate 160 request.idempotency_key in
      elim (Option-cases (find (has_idempotency_key k) s.outbox)) [
        | inr (existing, e) ↦ rw (e, enqueue_outbox) (h key)
        | inl e ↦
            rw (e, enqueue_outbox)
              (ground (
                arith,
                rows_of-append key s.outbox (new_item encrypt now id request),
                rows_of-find k s.outbox e,
                eq_iff k key,
                h key,
              ))
      ]

  OnePerKey-Step : {s t : Store} → OnePerKey s → Step settings encrypt s t → OnePerKey t
  unfolding renew_claim complete touch_push_subscription revoke_push_subscription rotate
  OnePerKey-Step {s} h (claims now token) key =
      elim (claim_one-cases settings encrypt s now token) [
        | inl e ↦ rw e (h key)
        | inr (id, e) ↦
            rw
              (
                e,
                rows_of-modify_if key (chosen now id) (claimed settings now token) s.outbox
                    (λ x. refl),
              )
              (h key)
      ]
  OnePerKey-Step {s} h (renews now id token) key =
      rw
        (rows_of-modify_if key (is_claimed_by id token) (renewed settings now) s.outbox (λ x. refl))
        (h key)
  OnePerKey-Step {s} h (fails now id token code permanent) key =
      elim (fail-cases settings encrypt s now id token code permanent) [
        | inl e ↦ rw e (h key)
        | inr e ↦
            rw
              (
                e,
                rows_of-modify_if key (is_claimed_by id token)
                    (failed_item settings now code permanent) s.outbox
                    (failed_item-key now code permanent),
              )
              (h key)
      ]
  OnePerKey-Step {s} h (completes now id token) key =
      rw (rows_of-modify_if key (is_claimed_by id token) (delivered_item now) s.outbox (λ x. refl))
        (h key)
  OnePerKey-Step {s} h (touches now id) key = h key
  OnePerKey-Step {s} h (revokes now id) key = h key
  OnePerKey-Step {s} h (enqueues now id request) key = OnePerKey-enqueue now id request s h key
  OnePerKey-Step {s} h (notifies added subscriptions) key = h key
  OnePerKey-Step {s} h (rotates rotate_text) key =
      rw (rows_of-modify_if key (λ x. true) (rotated_item rotate_text) s.outbox (λ x. refl)) (h key)
  OnePerKey-Step {s} h (cleans cutoff) key = omega (arith, rows_of-cleanup key cutoff s, h key)

  OnePerKey-steps : (s : Store) {t : Store} → OnePerKey s → Reach settings encrypt s t → OnePerKey t
  OnePerKey-steps s h here = h
  OnePerKey-steps s h (next r step) = OnePerKey-Step (OnePerKey-steps s h r) step

  -- A message is queued at most once: the outbox never holds two rows with one key, after any
  -- requests and any operations of the workers.
  pub OnePerKey-Reach :
      (s : Store) {t : Store} (key : String)
      → ((k : String) → count_if (has_idempotency_key k) s.outbox ≤ 1)
      → Reach settings encrypt s t
      → count_if (has_idempotency_key key) t.outbox ≤ 1
  OnePerKey-Reach s key h r = OnePerKey-steps s h r key
