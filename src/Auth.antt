-- ===== src/Auth.antt =====
-- internal/modules/auth: users, sessions and e-mailed codes.
pub mod Domain
pub mod Repositories
pub mod Service
pub mod History
pub mod Codes
pub mod Sessions
pub mod Tests
