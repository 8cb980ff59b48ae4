-- ===== src/RunStore.antt =====
-- The transactional repository of backend/app/runtime.py (`SqlRunRepository`), seen through one run:
-- its row, the rows that its transactions read, and the rows that they write. A transaction commits
-- as a whole or leaves the store as it was.
pub mod State
pub mod Lease
pub mod Plan
pub mod Bindings
pub mod Api
pub mod Step
pub mod Fencing
pub mod Outcomes
pub mod Kept
pub mod Lasts
