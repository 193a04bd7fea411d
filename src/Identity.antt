-- ===== src/Identity.antt =====
-- The companies and users of the identity service (internal/identity/domain).
pub mod Validation
pub mod Checksum
pub mod Numbers
pub mod Role
pub mod Types
pub mod User
pub mod Company
pub mod Life
pub mod Users
mod Tests
