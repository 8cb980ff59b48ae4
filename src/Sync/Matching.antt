-- ===== src/Sync/Matching.antt =====
-- The pure matching functions of backend/app/sync/matching.py.
pub mod Text
pub mod Table
pub mod Songs
pub mod Events
