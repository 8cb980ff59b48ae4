-- ===== src/Outbox/Consumer.antt =====
-- `OutboxConsumer`: claiming, loading, renewing, failing and completing, each one transaction.
use worshiptool_churchtools.Prelude.{
  ℕ, ◌+◌, ◌-◌, ◌*◌, ◌/◌, ◌%◌, ◌^◌, String, Bool, true, false, Option, none, some, List, ◌&&◌, ◌||◌,
  leb, ltb, nat_eq, if◌then◌else◌, select, sort, find, count_if, modify_if, min, max, is_some, not,
}
use worshiptool_churchtools.RunStore.State.{truncate}
use worshiptool_churchtools.Outbox.State.{
  OutboxStatus, Message, NotificationOutbox, PushSubscription, Store, Settings, seconds, is_due,
  is_claimed_by,
}

pub record DeliveryError : Type 0 where
  pub code : String
  pub permanent : Bool

-- What `_deliver` catches: a `DeliveryError`, or any other exception.
pub data Trouble : Type 0 where
  delivery_error : DeliveryError → Trouble
  unexpected : Trouble

pub record DeliveryEnvelope : Type 0 where
  pub channel : String
  pub recipient : String
  pub payload : Message
  pub push_subscription_id : Option ℕ
  pub push_subscription : Option String

pub data Loaded : Type 0 where
  gone : Loaded
  loaded : DeliveryEnvelope → Loaded
  refused : Trouble → Loaded

-- What the consumer takes from outside: the cipher, the reading of a UUID, and the two senders. A
-- sender may raise, and while it sends, other workers may change the store.
pub record Outside : Type 0 where
  pub decrypt_payload : String → Option Message
  pub decrypt_subscription : String → Option String
  pub read_uuid : String → Option ℕ
  pub send_email : DeliveryEnvelope → Store → Option Trouble × Store
  pub send_push : DeliveryEnvelope → Store → Option Trouble × Store

-- `ORDER BY next_attempt_at, created_at, id`
abbrev pub due_leb : NotificationOutbox → NotificationOutbox → Bool
due_leb a b =
    if ltb a.next_attempt_at b.next_attempt_at
    then true
    else if nat_eq a.next_attempt_at b.next_attempt_at
    then (if ltb a.created_at b.created_at
        then true
        else if nat_eq a.created_at b.created_at
        then leb a.id b.id
        else false)
    else false

abbrev pub first_row {ℓ} : {A : Type ℓ} → List A → Option A
first_row List.[] = none
first_row (List.◌∷◌ x xs) = some x

unfoldable pub next_due : ℕ → List NotificationOutbox → Option NotificationOutbox
next_due now items = first_row (sort due_leb (select (is_due now) items))

abbrev pub claimed : Settings → ℕ → String → NotificationOutbox → NotificationOutbox
claimed settings now token item = record item {
  status = OutboxStatus.processing;
  attempts = item.attempts + 1;
  claim_token = some token;
  next_attempt_at = now + seconds settings.lease_seconds;
}

-- The row is locked from its choice to its change, so that it is still due when it is changed.
abbrev pub chosen : ℕ → ℕ → NotificationOutbox → Bool
chosen now id item = nat_eq item.id id && is_due now item

-- `_claim_one`
unfoldable pub claim_one : Settings → ℕ → String → Store → Option ℕ × Store
unfolding next_due
claim_one settings now token s = elim (next_due now s.outbox) [
  | none ↦ (none, s)
  | some item ↦ (
    some item.id,
    record s { outbox = modify_if (chosen now item.id) (claimed settings now token) s.outbox },
  )
]

abbrev pub renewed : Settings → ℕ → NotificationOutbox → NotificationOutbox
renewed settings now item = record item { next_attempt_at = now + seconds settings.lease_seconds }

-- `_renew_claim`
unfoldable pub renew_claim : Settings → ℕ → ℕ → String → Store → Bool × Store
renew_claim settings now id token s = (
  nat_eq (count_if (is_claimed_by id token) s.outbox) 1,
  record s { outbox = modify_if (is_claimed_by id token) (renewed settings now) s.outbox },
)

-- The delay before the next attempt, in seconds.
unfoldable pub backoff_base : ℕ → ℕ
backoff_base attempts = min 21600 (15 * 2 ^ (attempts - 1))

unfoldable pub backoff_jitter : ℕ → ℕ → ℕ
backoff_jitter id base = id % max 1 (base / 4 + 1)

abbrev pub is_hopeless : Settings → Bool → NotificationOutbox → Bool
is_hopeless settings permanent item = permanent || leb settings.max_attempts item.attempts

unfoldable pub failed_item : Settings → ℕ → String → Bool → NotificationOutbox → NotificationOutbox
unfolding backoff_base backoff_jitter
failed_item settings now code permanent item =
    if is_hopeless settings permanent item
    then (record item {
      status = OutboxStatus.dead;
      last_error_code = some (truncate 100 code);
      claim_token = none;
    })
    else (record item {
      status = OutboxStatus.failed;
      last_error_code = some (truncate 100 code);
      claim_token = none;
      next_attempt_at =
          now
          + seconds
              (backoff_base item.attempts + backoff_jitter item.id (backoff_base item.attempts));
    })

-- `_fail`
unfoldable pub fail : Settings → ℕ → ℕ → String → String → Bool → Store → OutboxStatus × Store
unfolding failed_item
fail settings now id token code permanent s = elim (find (is_claimed_by id token) s.outbox) [
  | none ↦ (OutboxStatus.failed, s)
  | some item ↦ (
    (failed_item settings now code permanent item).status,
    record s {
      outbox =
          modify_if (is_claimed_by id token) (failed_item settings now code permanent) s.outbox;
    },
  )
]

abbrev pub delivered_item : ℕ → NotificationOutbox → NotificationOutbox
delivered_item now item = record item {
  status = OutboxStatus.delivered;
  delivered_at = some now;
  last_error_code = none;
  claim_token = none;
}

-- The fenced `UPDATE` at the end of `_deliver`.
unfoldable pub complete : ℕ → ℕ → String → Store → OutboxStatus × Store
complete now id token s = (
  (if nat_eq (count_if (is_claimed_by id token) s.outbox) 1
      then OutboxStatus.delivered
      else OutboxStatus.failed),
  record s { outbox = modify_if (is_claimed_by id token) (delivered_item now) s.outbox },
)

-- `_touch_push_subscription` and `_revoke_push_subscription`
unfoldable pub touch_push_subscription : ℕ → ℕ → Store → Store
touch_push_subscription now id s = record s {
  subscriptions =
      modify_if (λ (x : PushSubscription). nat_eq x.id id && not (is_some x.revoked_at))
        (λ (x : PushSubscription). record x { last_used_at = some now }) s.subscriptions;
}

unfoldable pub revoke_push_subscription : ℕ → ℕ → Store → Store
revoke_push_subscription now id s = record s {
  subscriptions =
      modify_if (λ (x : PushSubscription). nat_eq x.id id)
        (λ (x : PushSubscription). record x { revoked_at = some now }) s.subscriptions;
}
