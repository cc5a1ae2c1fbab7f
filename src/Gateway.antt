-- ===== src/Gateway.antt =====
-- kernel/gateway.py
pub mod Rule
pub mod Profile
pub mod Evaluate
pub mod Verdict
pub mod Decisions
pub mod Spelling
pub mod Output
