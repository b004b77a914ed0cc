-- ===== src/Tests.antt =====
-- Concrete runs, and for each theorem an input at which its conditions hold.
pub mod Fixtures
pub mod Storing
pub mod Granting
pub mod Serving
pub mod Calling
pub mod Answering
