-- ===== src/Listing.antt =====
-- internal/modules/catalog/application: the checks of a spec before it is created, in
-- validation.go and service.go.
pub mod Lists
pub mod Draft
pub mod Validation
pub mod Slug
pub mod Unique
pub mod Create
pub mod Tests
