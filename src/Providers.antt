-- ===== src/Providers.antt =====
-- The upstream clients of backend/providers.
pub mod TdxRateLimit
pub mod KeyedLocks
pub mod TtlCache
pub mod FallbackBike
