-- ===== src/Sync/Planner.antt =====
-- The deterministic planner of backend/app/sync/planner.py.
pub mod Factory
pub mod Songs
pub mod Placements
pub mod Agenda
pub mod Events
