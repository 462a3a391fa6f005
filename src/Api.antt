-- ===== src/Api.antt =====
-- The HTTP layer of backend/api.
pub mod BodyLimit
pub mod RequestLimits
pub mod SessionStore
