-- ===== src/Identity.antt =====
-- Members, roles, teams, sessions and mail: backend/internal/identity.
pub mod Tables
pub mod Permission
pub mod Request
pub mod Sessions
pub mod Mail
pub mod Delivery
pub mod Challenges
pub mod Completion
pub mod Domain
pub mod Organization
