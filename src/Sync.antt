-- ===== src/Sync.antt =====
-- The sync domain (backend/app/sync/): data, matching, planning and execution.
pub mod Errors
pub mod Models
pub mod Platform
pub mod Fingerprints
pub mod Leases
pub mod Serialization
pub mod Matching
pub mod Planner
pub mod Engine
