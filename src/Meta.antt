-- ===== src/Meta.antt =====
-- internal/adapters/meta: the client of the Graph API and the callbacks of the Facebook login.
pub mod Wire
pub mod Client
pub mod Items
pub mod Insights
pub mod Listing
pub mod Identity
pub mod Publish
pub mod Port
pub mod Handlers
pub mod Sent
