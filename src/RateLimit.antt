-- ===== src/RateLimit.antt =====
-- The rate limits of backend/app/rate_limit.py.
pub mod Memory
pub mod Window
pub mod Enforce
