-- ===== src/Security.antt =====
-- kernel/security.py
pub mod Profile
pub mod Policy
pub mod Evaluate
pub mod Cases
pub mod Access
pub mod Approval
pub mod Governed
pub mod Output
