-- ===== src/Store.antt =====
-- internal/adapters/sqlite: the tables and the statements of the SQLite store, and what they keep.
pub mod Db
pub mod Tables
pub mod Laws
pub mod Rows
pub mod Tenants
pub mod Pages
pub mod Oauth
pub mod Isolation
pub mod Added
pub mod Codes
pub mod Rotation
pub mod Erasure
pub mod Consistency
pub mod Opening
