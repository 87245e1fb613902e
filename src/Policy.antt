-- ===== src/Policy.antt =====
-- The policy package (backend/src/policy).
pub mod Constraints
pub mod Engine
pub mod Approval
pub mod Lifecycle
pub mod Agents
pub mod Requirements
