-- ===== src/Server.antt =====
-- The Go services, as far as the packages depend on what they accept.
pub mod Payload
pub mod Validator
pub mod Accepted
pub mod PageAccepted
pub mod Stats
pub mod Names
pub mod Rating
pub mod Dashboards
pub mod Answered
