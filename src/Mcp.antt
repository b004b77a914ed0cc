-- ===== src/Mcp.antt =====
-- internal/adapters/mcpserver: the tools that an MCP client sees.
pub mod Server
pub mod Reading
pub mod Writing
pub mod Tools
pub mod Resources
pub mod Prompts
pub mod Effects
pub mod Bearer
