-- ===== src/Tests/Outbox.antt =====
-- One notification in the outbox, and what becomes of it.
use worshiptool_churchtools.Prelude.{
  ℕ, ◌≤◌, ◌≡◌, refl, String, false, none, some, [], ◌∷◌, arith, count_if,
}
use worshiptool_churchtools.Outbox.State.{
  Message, NotificationOutbox, OutboxStatus, Settings, Store,
}
use worshiptool_churchtools.Outbox.Consumer.{claim_one, complete, fail, renew_claim, next_due}
use worshiptool_churchtools.Outbox.Enqueue.{Request, enqueue_outbox, has_idempotency_key}
use worshiptool_churchtools.Outbox.Step.{claims, enqueues, Reach, here, next}
use worshiptool_churchtools.Outbox.Reachable.{AllValid, AllValid-Reach}
use worshiptool_churchtools.Outbox.Fencing.{stale_claim_fenced, OnePerKey-Reach}
use worshiptool_churchtools.Outbox.Backoff.{attempts_of, attempts_of_dead}

abbrev settings : Settings
settings = record { batch_size = 10; max_attempts = 8; lease_seconds = 300 }

abbrev message : Message
message = record { subject = "Sync"; text = "Fertig"; message_id = none }

abbrev encrypt : Message → ℕ → String
encrypt m id = m.text

abbrev item : NotificationOutbox
item = record {
  id = 7;
  notification_id = some 3;
  channel = "email";
  recipient = "a@example.org";
  payload_encrypted = "Fertig";
  idempotency_key = "run-1";
  status = OutboxStatus.pending;
  attempts = 0;
  created_at = 5;
  next_attempt_at = 5;
  claim_token = none;
  delivered_at = none;
  last_error_code = none;
}

abbrev start : Store
start = record { notifications = []; outbox = item ∷ []; subscriptions = [] }

abbrev empty : Store
empty = record { notifications = []; outbox = []; subscriptions = [] }

abbrev request : Request
request = record {
  notification_id = some 3;
  channel = "email";
  recipient = "a@example.org";
  payload = message;
  idempotency_key = "run-1";
}

abbrev claimed_store : Store
claimed_store = (claim_one settings 10 "w1" start).1

abbrev queued_store : Store
queued_store = (enqueue_outbox encrypt 5 7 request empty).1

queue_steps : Reach settings encrypt empty (claim_one settings 10 "w1" queued_store).1
queue_steps = next (next here (enqueues 5 7 request)) (claims 10 "w1")

AllValid-Reach_example : AllValid settings encrypt (claim_one settings 10 "w1" queued_store).1
AllValid-Reach_example = AllValid-Reach settings encrypt empty tt queue_steps

OnePerKey-Reach_example :
    count_if (has_idempotency_key "run-1") (claim_one settings 10 "w1" queued_store).1.outbox ≤ 1
OnePerKey-Reach_example =
    OnePerKey-Reach settings encrypt empty "run-1" (λ k. omega arith) queue_steps

-- The row is claimed by the first worker, and a second one tries with a token of its own.
stale_claim_fenced_example :
    (complete 20 7 "w2" claimed_store ≡ (OutboxStatus.failed, claimed_store))
    × (fail settings 20 7 "w2" "smtp" false claimed_store ≡ (OutboxStatus.failed, claimed_store))
    × (renew_claim settings 20 7 "w2" claimed_store ≡ (false, claimed_store))
unfolding claim_one next_due
stale_claim_fenced_example =
    stale_claim_fenced settings 20 7 "w2" "smtp" false claimed_store (refl, tt)

attempts_of_dead_example :
    (attempts_of settings (λ n. n) "w1" "smtp" 8 item).status ≡ OutboxStatus.dead
attempts_of_dead_example = attempts_of_dead settings (λ n. n) "w1" "smtp" 7 item (omega arith)
