-- ===== src/Providers/Http.antt =====
-- `request_json` of backend/app/providers/http.py. A delay is a number of microseconds. The texts and
-- details of errors are left out.
pub mod Body
pub mod Request
pub mod Bounds
pub mod Writes
