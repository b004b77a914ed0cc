-- ===== src/App.antt =====
-- internal/app: the use cases behind the MCP tools, the login and the refresh sweep.
pub mod Service
pub mod Window
pub mod Read
pub mod Publish
pub mod IgPublish
pub mod Comments
pub mod Removal
pub mod Status
pub mod Login
pub mod Refresh
pub mod Tools
pub mod Metadata
