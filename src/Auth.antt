-- ===== src/Auth.antt =====
pub mod Verify
pub mod Grants
pub mod Redirects
pub mod Registration
-- internal/adapters/authserver: the OAuth 2.1 authorization server.
pub mod Server
pub mod Jwt
pub mod Register
pub mod Authorize
pub mod Token
pub mod Metadata
