-- ===== src/Upload.antt =====
-- internal/modules/catalog/application/upload_service.go: what producers upload, and how an
-- upload is completed.
pub mod Paths
pub mod Files
pub mod Site
pub mod Service
pub mod Submit
pub mod Completion
pub mod Guards
pub mod Tests
