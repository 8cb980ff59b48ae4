-- ===== src/Outbox.antt =====
-- The notification outbox of backend/app/outbox.py: its rows, the transactions of the consumer on
-- them, the enqueueing, and the retention.
pub mod State
pub mod Consumer
pub mod Batch
pub mod Enqueue
pub mod Step
pub mod Lifecycle
pub mod Reachable
pub mod Fencing
pub mod Backoff
pub mod Totals
