-- ===== src/Sync/Engine.antt =====
-- The orchestrator of backend/app/sync/engine.py.
pub mod Calls
pub mod Trace
pub mod Budget
pub mod Actions
pub mod Execute
pub mod Status
pub mod Reconcile
pub mod Events
pub mod Plan
pub mod Run
