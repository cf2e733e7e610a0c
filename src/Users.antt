-- ===== src/Users.antt =====
-- services/users.
pub mod Text
pub mod Table
pub mod Db
pub mod Security
pub mod Auth
pub mod Follows
pub mod Service
pub mod Migrations
pub mod ClientIp
pub mod Schemas
pub mod Settings
pub mod RateLimit
