-- ===== src/Execution.antt =====
-- kernel/execution.py
pub mod Plan
pub mod Governed
pub mod Authorization
pub mod Policy
pub mod Output
pub mod Disclosure
