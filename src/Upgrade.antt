-- ===== src/Upgrade.antt =====
-- kernel/upgrade.py: versions, ranges of versions, and the plan of an upgrade.
pub mod Versions
pub mod Order
pub mod Ranges
pub mod Plan
pub mod Decide
pub mod Summary
