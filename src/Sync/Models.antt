-- ===== src/Sync/Models.antt =====
-- The immutable records of backend/app/sync/models.py. An instant is the number of microseconds
-- since the epoch, in UTC. A mapping with a fixed set of keys is a record, and a key that is absent
-- or `None` is `none`: the code reads these mappings by `.get`, which does not tell them apart.
mod Events
mod Plans
mod Profiles
unfoldable pub use Events.*
pub use Plans.*
pub use Profiles.*
