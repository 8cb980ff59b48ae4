-- ===== src/Providers.antt =====
-- The calls of the providers (backend/app/providers/).
pub mod Http
