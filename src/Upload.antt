-- ===== src/Upload.antt =====
-- internal/upload: the upload service.
pub mod Stream
pub mod Record
pub mod Photo
pub mod Repository
pub mod Postgres
pub mod Listing
pub mod Publisher
mod Tests
