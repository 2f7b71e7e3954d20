-- ===== src/Gallery/Database.antt =====
-- The database of the gallery service, as internal/gallery/command/repository.go and
-- internal/gallery/query/repository.go use it. GORM is a parameter, by the statements that the two
-- repositories make of it.
pub mod Commands
pub mod Queries
pub mod Meaning
pub mod Invariant
pub mod Memberships
pub mod Answers
pub mod MembershipTests
use progetto_sdcc.Prelude.{ℕ, Option, Result, List}
use progetto_sdcc.Prelude.Int.{ℤ}
use progetto_sdcc.Gallery.{Gallery, Member}

-- `World` is the database, the clock and the source of identifiers.
pub record Db : Type 1 where
  pub World : Type 0
  -- `Create(gallery)`, which fills in the gallery
  pub create_gallery : Gallery → World → Result Gallery × World
  -- `Save(g)`
  pub save_gallery : Gallery → World → Result (Unit {0}) × World
  -- `Unscoped().Delete(&models.Gallery{}, "id=?", id)`
  pub delete_gallery : ℕ → World → Result (Unit {0}) × World
  -- `Clauses(clause.OnConflict{DoNothing: true}).Create(member)`
  pub create_member : Member → World → Result (Unit {0}) × World
  -- `Delete(&models.Member{}, "gallery_id=? AND user_id=?", id, userID)`
  pub delete_member : ℕ → ℕ → World → Result (Unit {0}) × World
  -- `First(&g, "id=?", id)`
  pub first_gallery : ℕ → World → Result Gallery
  -- `Preload("Members", "user_id = ?", userID).First(&gallery, "id = ?", galleryID)`: user, gallery
  pub first_with_member : ℕ → ℕ → World → Result (Gallery × List Member)
  -- `Order("id").Limit(limit).Find(&g)`, with `Where("id>?", after)` if there is one
  pub find_galleries : Option ℕ → ℤ → World → Result (List Gallery)
  -- The same of the join with `members` on the gallery, where `members.user_id` is the user
  pub find_joined : ℕ → Option ℕ → ℤ → World → Result (List Gallery)
  -- `Where("gallery_id=?", id).Find(&members)`
  pub find_members : ℕ → World → Result (List Member)
  -- `Model(&models.Gallery{}).Where("id=?", id).Count(&c)`
  pub count_galleries : ℕ → World → Result ℕ
  -- `time.Now` and `uuid.New`
  pub now : World → ℕ
  pub new_uuid : World → ℕ × World
