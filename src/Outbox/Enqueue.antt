-- ===== src/Outbox/Enqueue.antt =====
-- `enqueue_outbox`.
use worshiptool_churchtools.Prelude.{
  ℕ, Option, String, ◌≡◌, Bool, true, none, some, List, [], ◌∷◌, ◌++◌, ◌==◌, if◌then◌else◌, find,
  arith, Option-cases, eq_refl, inl, inr,
}
use worshiptool_churchtools.RunStore.State.{truncate}
use worshiptool_churchtools.Outbox.State.{OutboxStatus, Message, NotificationOutbox, Store}

pub record Request : Type 0 where
  pub notification_id : Option ℕ
  pub channel : String
  pub recipient : String
  pub payload : Message
  pub idempotency_key : String

abbrev pub has_idempotency_key : String → NotificationOutbox → Bool
has_idempotency_key key item = item.idempotency_key == key

-- The document that is encrypted: an email carries the row's id as its stable message id.
abbrev pub document : ℕ → Request → Message
document id request =
    if request.channel == "email"
    then (record request.payload { message_id = some id })
    else request.payload

module _ (encrypt : Message → ℕ → String) where
  unfoldable pub new_item : ℕ → ℕ → Request → NotificationOutbox
  new_item now id request = record {
    id = id;
    notification_id = request.notification_id;
    channel = request.channel;
    recipient = request.recipient;
    payload_encrypted = encrypt (document id request) id;
    idempotency_key = truncate 160 request.idempotency_key;
    status = OutboxStatus.pending;
    attempts = 0;
    created_at = now;
    next_attempt_at = now;
    claim_token = none;
    delivered_at = none;
    last_error_code = none;
  }

  -- `enqueue_outbox`, with the id that `uuid4` gives: the row of the key, and the store.
  unfoldable pub enqueue_outbox : ℕ → ℕ → Request → Store → NotificationOutbox × Store
  unfolding new_item
  enqueue_outbox now id request s =
      elim (find (has_idempotency_key (truncate 160 request.idempotency_key)) s.outbox) [
        | some existing ↦ (existing, s)
        | none ↦ (
          new_item now id request,
          record s { outbox = s.outbox ++ new_item now id request ∷ [] },
        )
      ]

  find-append :
      (p : NotificationOutbox → Bool) (xs : List NotificationOutbox) (x : NotificationOutbox)
      → find p xs ≡ none
      → p x ≡ true
      → find p (xs ++ x ∷ []) ≡ some x
  find-append p [] x h k = rw k
  find-append p (y ∷ ys) x h k = ground (arith, find-append p ys x)

  -- A second request with the same key, whatever else it asks for, gives the row of the first one
  -- and changes nothing.
  pub enqueue_outbox_idempotent :
      (now now' id id' : ℕ) (request again : Request) (s : Store)
      → truncate 160 again.idempotency_key ≡ truncate 160 request.idempotency_key
      → enqueue_outbox now' id' again (enqueue_outbox now id request s).1
        ≡ enqueue_outbox now id request s
  unfolding enqueue_outbox
  enqueue_outbox_idempotent now now' id id' request again s same =
      let key = truncate 160 request.idempotency_key in
      let item = new_item now id request in
      elim (Option-cases (find (has_idempotency_key key) s.outbox)) [
        | inr (existing, e) ↦ ground arith
        | inl e ↦
            let found = find-append (has_idempotency_key key) s.outbox item e (eq_refl key) in
            ground arith
      ]
