-- ===== src/Outbox/Batch.antt =====
-- `_load_delivery`, `_deliver` and `process_batch`.
use worshiptool_churchtools.Prelude.{
  ℕ, zero, suc, ◌+◌, String, true, false, Option, none, some, ◌==◌, if◌then◌else◌, find, nat_eq,
  min, max, is_some,
}
use worshiptool_churchtools.Outbox.State.{
  OutboxStatus, Message, NotificationOutbox, PushSubscription, Store, Settings, is_claimed_by,
}
use worshiptool_churchtools.Outbox.Consumer.{
  DeliveryError, Trouble, DeliveryEnvelope, Loaded, Outside, claim_one, fail, complete,
  touch_push_subscription, revoke_push_subscription,
}

abbrev pub permanent_error : String → Trouble
permanent_error code = Trouble.delivery_error (record { code = code; permanent = true })

module _ (o : Outside) where
  abbrev plain : NotificationOutbox → Option Message → Loaded
  plain item none = Loaded.refused Trouble.unexpected
  plain item (some payload) = Loaded.loaded (record {
    channel = item.channel;
    recipient = item.recipient;
    payload = payload;
    push_subscription_id = none;
    push_subscription = none;
  })

  abbrev with_decoded : NotificationOutbox → Message → ℕ → Option String → Loaded
  with_decoded item payload id none = Loaded.refused Trouble.unexpected
  with_decoded item payload id (some decoded) = Loaded.loaded (record {
    channel = item.channel;
    recipient = item.recipient;
    payload = payload;
    push_subscription_id = some id;
    push_subscription = some decoded;
  })

  abbrev with_subscription : NotificationOutbox → Message → Option PushSubscription → Loaded
  with_subscription item payload none = Loaded.refused (permanent_error "push_subscription_gone")
  with_subscription item payload (some subscription) =
      if is_some subscription.revoked_at
      then Loaded.refused (permanent_error "push_subscription_gone")
      else with_decoded item payload subscription.id
          (o.decrypt_subscription subscription.subscription_encrypted)

  abbrev with_recipient : NotificationOutbox → Message → Store → Option ℕ → Loaded
  with_recipient item payload s none = Loaded.refused (permanent_error "invalid_push_recipient")
  with_recipient item payload s (some id) =
      with_subscription item payload
        (find (λ (x : PushSubscription). nat_eq x.id id) s.subscriptions)

  abbrev push : NotificationOutbox → Store → Option Message → Loaded
  push item s none = Loaded.refused Trouble.unexpected
  push item s (some payload) = with_recipient item payload s (o.read_uuid item.recipient)

  -- `_load_delivery`
  unfoldable pub load_delivery : ℕ → String → Store → Loaded
  load_delivery id token s = elim (find (is_claimed_by id token) s.outbox) [
    | none ↦ Loaded.gone
    | some item ↦
        if item.channel == "push"
        then push item s (o.decrypt_payload item.payload_encrypted)
        else plain item (o.decrypt_payload item.payload_encrypted)
  ]

  abbrev touched : ℕ → ℕ → Option Trouble × Store → Option Trouble × Store
  touched now id (none, s) = (none, touch_push_subscription now id s)
  touched now id (some trouble, s) = (some trouble, s)

  abbrev pushed : ℕ → DeliveryEnvelope → Option ℕ → Store → Option Trouble × Store
  pushed now envelope none s = (some Trouble.unexpected, s)
  pushed now envelope (some id) s = touched now id (o.send_push envelope s)

  -- The `with` block: what was sent, and the store after it. A push that was sent marks its
  -- subscription as used.
  unfoldable pub send : ℕ → DeliveryEnvelope → Store → Option Trouble × Store
  send now envelope s =
      if envelope.channel == "email"
      then o.send_email envelope s
      else if envelope.channel == "push"
      then pushed now envelope envelope.push_subscription_id s
      else (some (permanent_error "unknown_delivery_channel"), s)

  module _ (settings : Settings) (now id : ℕ) (token : String) where
    -- The first `except` clause revokes a subscription that is gone.
    abbrev pub revoked : Option ℕ → DeliveryError → Store → Store
    revoked none e s = s
    revoked (some subscription) e s =
        if e.code == "push_subscription_gone"
        then revoke_push_subscription now subscription s
        else s

    unfoldable pub on_trouble : Option ℕ → Trouble → Store → OutboxStatus × Store
    on_trouble subscription (Trouble.delivery_error e) s =
        fail settings now id token e.code e.permanent (revoked subscription e s)
    on_trouble subscription Trouble.unexpected s =
        fail settings now id token "unexpected_delivery_error" false s

    unfoldable pub after_send : Option ℕ → Option Trouble × Store → OutboxStatus × Store
    unfolding on_trouble
    after_send subscription (none, s) = complete now id token s
    after_send subscription (some trouble, s) = on_trouble subscription trouble s

    unfoldable pub deliver_loaded : Loaded → Store → OutboxStatus × Store
    unfolding after_send on_trouble
    deliver_loaded Loaded.gone s = (OutboxStatus.failed, s)
    deliver_loaded (Loaded.refused trouble) s = on_trouble none trouble s
    deliver_loaded (Loaded.loaded envelope) s =
        after_send envelope.push_subscription_id (send now envelope s)

    -- `_deliver`
    unfoldable pub deliver : Store → OutboxStatus × Store
    unfolding deliver_loaded
    deliver s = deliver_loaded (load_delivery id token s) s

pub record BatchResult : Type 0 where
  pub claimed : ℕ
  pub delivered : ℕ
  pub retried : ℕ
  pub dead : ℕ

abbrev pub nothing_claimed : BatchResult
nothing_claimed = record { claimed = 0; delivered = 0; retried = 0; dead = 0 }

-- One claim more, by the outcome of its delivery.
unfoldable pub tally : OutboxStatus → BatchResult → BatchResult
tally OutboxStatus.delivered r = record r { claimed = r.claimed + 1; delivered = r.delivered + 1 }
tally OutboxStatus.dead r = record r { claimed = r.claimed + 1; dead = r.dead + 1 }
tally _ r = record r { claimed = r.claimed + 1; retried = r.retried + 1 }

-- What the rounds of a batch read: the token and the two instants of each.
pub record Rounds : Type 0 where
  pub token : ℕ → String
  pub claim_time : ℕ → ℕ
  pub deliver_time : ℕ → ℕ

-- `max(1, min(limit or settings.outbox_batch_size, 500))`
unfoldable pub batch_limit : Settings → Option ℕ → ℕ
batch_limit settings none = max 1 (min settings.batch_size 500)
batch_limit settings (some n) = max 1 (min (if nat_eq n 0 then settings.batch_size else n) 500)

module _ (o : Outside) (settings : Settings) (rounds : Rounds) where
  abbrev pub round :
      (ℕ → BatchResult → Store → BatchResult × Store)
      → ℕ
      → BatchResult
      → Option ℕ × Store
      → BatchResult × Store
  round k i r (none, s) = (r, s)
  round k i r (some id, s) =
      let (outcome, t) = deliver o settings (rounds.deliver_time i) id (rounds.token i) s in
      k (i + 1) (tally outcome r) t

  -- The loop of `process_batch`: the rounds that are left, and the number of this one.
  unfoldable pub run_rounds : ℕ → ℕ → BatchResult → Store → BatchResult × Store
  run_rounds zero i r s = (r, s)
  run_rounds (suc n) i r s =
      round (run_rounds n) i r (claim_one settings (rounds.claim_time i) (rounds.token i) s)

  -- `process_batch`
  unfoldable pub process_batch : Option ℕ → Store → BatchResult × Store
  unfolding run_rounds
  process_batch limit s = run_rounds (batch_limit settings limit) 0 nothing_claimed s
