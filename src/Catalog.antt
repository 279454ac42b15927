-- ===== src/Catalog.antt =====
-- internal/modules/catalog: the upload pipeline.
pub mod Domain
pub mod Tables
pub mod Sessions
pub mod Specs
pub mod Jobs
pub mod Frames
pub mod Invariant
pub mod Statuses
pub mod Request
pub mod History
pub mod Tests
