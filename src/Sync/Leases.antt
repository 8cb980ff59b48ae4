-- ===== src/Sync/Leases.antt =====
-- The event leases of backend/app/sync/leases.py, over Redis as an interface.
pub mod Redis
pub mod Manager
pub mod Lock
