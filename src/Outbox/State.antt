-- ===== src/Outbox/State.antt =====
-- The rows of the outbox and of the push subscriptions. An instant is a number of microseconds.
use worshiptool_churchtools.Prelude.{
  ℕ, ◌*◌, String, Bool, true, false, Option, none, some, List, ◌==◌, ◌&&◌, ◌||◌, leb, nat_eq,
}

pub data OutboxStatus : Type 0 where
  pending processing delivered failed dead : OutboxStatus

-- The keys of a payload that the consumer reads; `Message` stands for the whole of it.
pub record Message : Type 0 where
  pub subject : String
  pub text : String
  -- `_message_id`
  pub message_id : Option ℕ

-- `id` is the integer of the UUID, and `payload` the text of the ciphertext.
pub record NotificationOutbox : Type 0 where
  pub id : ℕ
  pub notification_id : Option ℕ
  pub channel : String
  pub recipient : String
  pub payload_encrypted : String
  pub idempotency_key : String
  pub status : OutboxStatus
  pub attempts : ℕ
  pub created_at : ℕ
  pub next_attempt_at : ℕ
  pub claim_token : Option String
  pub delivered_at : Option ℕ
  pub last_error_code : Option String

pub record PushSubscription : Type 0 where
  pub id : ℕ
  pub subscription_encrypted : String
  pub revoked_at : Option ℕ
  pub last_used_at : Option ℕ

-- The columns of a notification that its retention reads.
pub record Notification : Type 0 where
  pub id : ℕ
  pub created_at : ℕ

pub record Store : Type 0 where
  pub notifications : List Notification
  pub outbox : List NotificationOutbox
  pub subscriptions : List PushSubscription

-- The settings that the consumer reads.
pub record Settings : Type 0 where
  pub batch_size : ℕ
  pub max_attempts : ℕ
  pub lease_seconds : ℕ

abbrev pub seconds : ℕ → ℕ
seconds n = n * 1000000

abbrev pub is_waiting : OutboxStatus → Bool
is_waiting OutboxStatus.pending = true
is_waiting OutboxStatus.failed = true
is_waiting _ = false

abbrev pub is_processing : OutboxStatus → Bool
is_processing OutboxStatus.processing = true
is_processing _ = false

-- The statuses that `RetentionService` may delete.
abbrev pub is_terminal : OutboxStatus → Bool
is_terminal OutboxStatus.delivered = true
is_terminal OutboxStatus.dead = true
is_terminal _ = false

-- `due` of `_claim_one`
abbrev pub is_due : ℕ → NotificationOutbox → Bool
is_due now item =
    (is_waiting item.status && leb item.next_attempt_at now)
    || (is_processing item.status && leb item.next_attempt_at now)

-- `id == item_id AND status == PROCESSING AND claim_token == token`
abbrev pub has_token : Option String → String → Bool
has_token none token = false
has_token (some claim) token = claim == token

abbrev pub is_claimed_by : ℕ → String → NotificationOutbox → Bool
is_claimed_by id token item =
    nat_eq item.id id && is_processing item.status && has_token item.claim_token token
