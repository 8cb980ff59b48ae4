-- ===== src/Outbox/Reachable.antt =====
-- What holds of the outbox after any operations.
use worshiptool_churchtools.Prelude.{
  ℕ, ◌≡◌, true, String, List, inl, inr, arith, All, All-modify_if, All-append, All-select,
  All-intro, All-at, not, select, Bool,
}
use worshiptool_churchtools.Outbox.State.{
  Message, NotificationOutbox, Store, Settings, is_claimed_by,
}
use worshiptool_churchtools.Outbox.Consumer.{
  renew_claim, failed_item, complete, touch_push_subscription, revoke_push_subscription, chosen,
  claimed, delivered_item,
}
use worshiptool_churchtools.Outbox.Enqueue.{new_item}
use worshiptool_churchtools.Outbox.Step.{
  cleanup, delete_outbox, delete_notifications, delete_subscriptions, refers_to_old, is_expired,
  Step, claims, renews, fails, completes, touches, revokes, enqueues, notifies, rotates, cleans,
  rotate, rotated_item, Reach, here, next,
}
use worshiptool_churchtools.Outbox.Lifecycle.{
  IsValid, Outcome, IsValid-claimed, IsValid-failed_item, claim_one-cases, fail-cases,
  enqueue_outbox-cases,
}

module _ (settings : Settings) (encrypt : Message → ℕ → String) where
  Outcome-at :
      (item : NotificationOutbox) (items items' : List NotificationOutbox)
      → items' ≡ items
      → Outcome item items
      → Outcome item items'
  Outcome-at item items items' e o = rw e o

  AllValid-kept :
      (test : NotificationOutbox → Bool) (items : List NotificationOutbox)
      → All (IsValid settings) items
      → All (IsValid settings) (select test items)
  AllValid-kept test items v =
      All-select (IsValid settings) test items
        (All-intro _ items (λ x m h. All-at (IsValid settings) items v x m))

  abbrev pub AllValid : Store → Type 0
  AllValid s = All (IsValid settings) s.outbox

  AllValid-cleanup : (cutoff : ℕ) (s : Store) → AllValid s → AllValid (cleanup cutoff s)
  unfolding cleanup delete_outbox delete_notifications delete_subscriptions
  AllValid-cleanup cutoff s v =
      AllValid-kept
        (λ (x : NotificationOutbox). not (refers_to_old cutoff s.notifications x.notification_id)) _
        (AllValid-kept (λ (x : NotificationOutbox). not (is_expired cutoff x)) s.outbox v)

  AllValid-Step : {s t : Store} → AllValid s → Step settings encrypt s t → AllValid t
  unfolding renew_claim complete touch_push_subscription revoke_push_subscription rotate new_item
  AllValid-Step {s} v (claims now token) = elim (claim_one-cases settings encrypt s now token) [
    | inl e ↦ rw e v
    | inr (id, e) ↦ rw e (
        All-modify_if (IsValid settings) (chosen now id) (claimed settings now token) s.outbox
          (λ x valid h. IsValid-claimed settings now token x valid) v)
  ]
  AllValid-Step {s} v (renews now id token) =
      All-modify_if (IsValid settings) (is_claimed_by id token) _ s.outbox
        (λ x valid h. ground arith) v
  AllValid-Step {s} v (fails now id token code permanent) =
      elim (fail-cases settings encrypt s now id token code permanent) [
        | inl e ↦ rw e v
        | inr e ↦ rw e (
            All-modify_if (IsValid settings) (is_claimed_by id token)
              (failed_item settings now code permanent) s.outbox
              (λ x valid h. IsValid-failed_item settings now code permanent x valid) v)
      ]
  AllValid-Step {s} v (completes now id token) =
      All-modify_if (IsValid settings) (is_claimed_by id token) (delivered_item now) s.outbox
        (λ x valid h. ground arith) v
  AllValid-Step {s} v (touches now id) = v
  AllValid-Step {s} v (revokes now id) = v
  AllValid-Step {s} v (enqueues now id request) =
      elim (enqueue_outbox-cases settings encrypt s now id request) [
        | inl e ↦ rw e v
        | inr e ↦ rw e (All-append (IsValid settings) s.outbox _ v (ground arith, tt))
      ]
  AllValid-Step {s} v (notifies added subscriptions) = v
  AllValid-Step {s} v (rotates rotate_text) =
      All-modify_if (IsValid settings) (λ x. true) (rotated_item rotate_text) s.outbox
        (λ x valid h. ground arith) v
  AllValid-Step {s} v (cleans cutoff) = AllValid-cleanup cutoff s v

  -- The rows stay consistent through every operation: a row that waits for another attempt has one
  -- left, exactly the claimed rows carry a claim token, and a delivered row has its time.
  pub AllValid-Reach :
      (s : Store) {t : Store} → AllValid s → Reach settings encrypt s t → AllValid t
  AllValid-Reach s v here = v
  AllValid-Reach s v (next r step) = AllValid-Step (AllValid-Reach s v r) step
