-- ===== src/Secrets.antt =====
-- kernel/secrets.py, less its redaction
pub mod Backend
pub mod Resolve
pub mod Controls
pub mod Sound
pub mod Output
