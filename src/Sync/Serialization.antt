-- ===== src/Sync/Serialization.antt =====
-- Plans as JSON documents: `to_primitive` of backend/app/sync/models.py and
-- backend/app/sync/serialization.py.
pub mod Json
pub mod Plans
pub mod Write
pub mod Read
pub mod RoundTrip
