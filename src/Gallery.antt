-- ===== src/Gallery.antt =====
-- internal/gallery: the gallery service, with the data of internal/gallery/models.
pub mod Command
pub mod Query
pub mod Api
pub mod Events
pub mod Database
mod Tests
use progetto_sdcc.Prelude.{ℕ, String}

pub data GalleryStatus : Type 0 where
  gallery_open gallery_closed : GalleryStatus

-- Without the columns that only the database reads.
pub record Gallery : Type 0 where
  pub id : ℕ
  pub name : String
  pub description : String
  pub gallery_status : GalleryStatus
  pub moderator_id : ℕ
  pub created_at : ℕ
  pub updated_at : ℕ

pub record Member : Type 0 where
  pub gallery_id : ℕ
  pub user_id : ℕ
  pub joined_at : ℕ
