-- ===== src/Agent.antt =====
-- The conversation agent of backend/agent.
pub mod Context
pub mod Dispatch
pub mod Session
pub mod Router
pub mod Responses
