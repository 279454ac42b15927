-- ===== src/Payment.antt =====
-- internal/modules/payment: orders, payments and licenses.
pub mod Domain
pub mod Repositories
pub mod Dodo
pub mod Service
pub mod Invariant
pub mod Steps
pub mod Soundness
pub mod Clients
pub mod Alone
pub mod Backing
pub mod Rows
pub mod Moves
pub mod History
pub mod Tests
