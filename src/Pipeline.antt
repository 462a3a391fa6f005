-- ===== src/Pipeline.antt =====
-- The text pipeline of backend/pipeline.
pub mod Numerals
pub mod Streaming
pub mod Output
