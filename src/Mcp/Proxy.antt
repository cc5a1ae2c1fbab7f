-- ===== src/Mcp/Proxy.antt =====
-- kernel/mcp_proxy.py: the proxy that lets a server reach the destinations of an allowlist.
pub mod Authority
pub mod Server
pub mod Handler
pub mod Recorded
pub mod Confined
