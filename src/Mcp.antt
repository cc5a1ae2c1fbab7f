-- ===== src/Mcp.antt =====
-- kernel/mcp.py and kernel/mcp_proxy.py: MCP servers, their policies, and the proxy that confines them.
pub mod Profile
pub mod Policy
pub mod Startup
pub mod Report
pub mod Tested
pub mod Warnings
pub mod Health
pub mod Started
pub mod Shown
pub mod Covered
pub mod Safety
pub mod Observed
pub mod Manage
pub mod Proxy
