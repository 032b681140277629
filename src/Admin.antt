-- ===== src/Admin.antt =====
-- The administration of users and teams (admin/).
pub mod Users
pub mod Teams
mod Tests
