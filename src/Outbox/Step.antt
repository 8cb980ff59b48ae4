-- ===== src/Outbox/Step.antt =====
-- Every change of the outbox, as a relation: the transactions of any worker at any time, the
-- requests, the retention, and the rotation of the encryption key (backend/app/rotate_encryption.py).
-- The other code never changes or removes a row of the outbox, but it does change the notifications
-- and the subscriptions.
use worshiptool_churchtools.Prelude.{
  ℕ, String, Bool, true, false, modify_if, not, Option, none, some, List, ◌++◌, ◌&&◌, select, any,
  nat_eq, ltb,
}
use worshiptool_churchtools.Outbox.State.{
  Message, Notification, NotificationOutbox, PushSubscription, Store, Settings, is_terminal,
}
use worshiptool_churchtools.Outbox.Consumer.{
  claim_one, renew_claim, fail, complete, touch_push_subscription, revoke_push_subscription,
}
use worshiptool_churchtools.Outbox.Enqueue.{Request, enqueue_outbox}

abbrev pub is_expired : ℕ → NotificationOutbox → Bool
is_expired cutoff item = is_terminal item.status && ltb item.created_at cutoff

abbrev pub is_old : ℕ → Notification → Bool
is_old cutoff n = ltb n.created_at cutoff

-- The foreign key of the row, with `ondelete="CASCADE"`, is one of a deleted notification.
abbrev pub refers_to_old : ℕ → List Notification → Option ℕ → Bool
refers_to_old cutoff notifications none = false
refers_to_old cutoff notifications (some id) =
    any notifications (λ n. nat_eq n.id id && is_old cutoff n)

abbrev pub was_revoked : ℕ → PushSubscription → Bool
was_revoked cutoff subscription = elim subscription.revoked_at [
  | none ↦ false
  | some at ↦ ltb at cutoff
]

-- `delete(NotificationOutbox)`
unfoldable pub delete_outbox : ℕ → Store → Store
delete_outbox cutoff s = record s {
  outbox = select (λ (item : NotificationOutbox). not (is_expired cutoff item)) s.outbox;
}

-- `delete(Notification)`, with the rows of the outbox that the database deletes along with it
unfoldable pub delete_notifications : ℕ → Store → Store
delete_notifications cutoff s = record s {
  notifications = select (λ (n : Notification). not (is_old cutoff n)) s.notifications;
  outbox =
      select
        (λ (item : NotificationOutbox).
          not (refers_to_old cutoff s.notifications item.notification_id))
        s.outbox;
}

-- `delete(PushSubscription)`
unfoldable pub delete_subscriptions : ℕ → Store → Store
delete_subscriptions cutoff s = record s {
  subscriptions =
      select (λ (subscription : PushSubscription). not (was_revoked cutoff subscription))
        s.subscriptions;
}

-- The statements of `RetentionService.cleanup` on these three tables.
unfoldable pub cleanup : ℕ → Store → Store
unfolding delete_outbox delete_notifications delete_subscriptions
cleanup cutoff s =
    delete_subscriptions cutoff (delete_notifications cutoff (delete_outbox cutoff s))

abbrev pub rotated_item : (ℕ → String → String) → NotificationOutbox → NotificationOutbox
rotated_item rotate_text item = record item {
  payload_encrypted = rotate_text item.id item.payload_encrypted;
}

-- `rotate` on the rows of the outbox; what `_rotate_text` gives for a row, by the package for
-- cryptography, is a parameter
unfoldable pub rotate : (ℕ → String → String) → Store → Store
rotate rotate_text s = record s {
  outbox = modify_if (λ (item : NotificationOutbox). true) (rotated_item rotate_text) s.outbox;
}

module _ (settings : Settings) (encrypt : Message → ℕ → String) where
  pub data Step (s : Store) : Store → Type 0 where
    claims : (now : ℕ) (token : String) → Step s (claim_one settings now token s).1
    renews : (now id : ℕ) (token : String) → Step s (renew_claim settings now id token s).1
    fails :
        (now id : ℕ) (token code : String) (permanent : Bool)
        → Step s (fail settings now id token code permanent s).1
    completes : (now id : ℕ) (token : String) → Step s (complete now id token s).1
    touches : (now id : ℕ) → Step s (touch_push_subscription now id s)
    revokes : (now id : ℕ) → Step s (revoke_push_subscription now id s)
    enqueues : (now id : ℕ) (request : Request) → Step s (enqueue_outbox encrypt now id request s).1
    -- any change of the other two tables that deletes no notification
    notifies :
        (added : List Notification) (subscriptions : List PushSubscription)
        → Step s
            (record s { notifications = s.notifications ++ added; subscriptions = subscriptions })
    rotates : (rotate_text : ℕ → String → String) → Step s (rotate rotate_text s)
    cleans : (cutoff : ℕ) → Step s (cleanup cutoff s)

  pub data Reach (s : Store) : Store → Type 0 where
    here : Reach s s
    next : {t u : Store} → Reach s t → Step t u → Reach s u
