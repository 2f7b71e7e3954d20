-- ===== src/Upload/Postgres.antt =====
-- internal/upload/postgres.go: the upload repository in Postgres. GORM is a parameter, by the
-- statements that the repository makes of it.
pub mod Contents
pub mod Order
mod Tests
use progetto_sdcc.Prelude.{
  ℕ, Bool, true, false, Option, none, some, List, Error, Result, ok, err, ◌>>=◌, ltb, if◌then◌else◌,
}
use progetto_sdcc.Upload.Record.{Record}

pub record Db : Type 1 where
  pub World : Type 0
  -- `Clauses(OnConflict{photo_id, UpdateAll}).Create(rec)`
  pub create : Record → World → Result (Unit {0}) × World
  -- `First(&rec, "photo_id = ?", photoID)`
  pub first : ℕ → World → Result Record
  -- `Where("gallery_id = ?", galleryID)`, counted, and ordered by `uploaded_at DESC` with an offset and
  -- a limit if they are set
  pub count : ℕ → World → Result ℕ
  pub find : ℕ → Option ℕ → Option ℕ → World → Result (List Record)
  -- `errors.Is(err, gorm.ErrRecordNotFound)`
  pub is_not_found : Error → Bool

-- A clause that is added for a positive number.
abbrev pub if_positive : ℕ → Option ℕ
if_positive n = if ltb 0 n then some n else none

module _ (db : Db) where
  open db use {World}

  unfoldable pub save : Record → World → Result (Unit {0}) × World
  save rec w = db.create rec w

  abbrev found : Result Record → Result (Option Record)
  found (ok rec) = ok (some rec)
  found (err e) = if db.is_not_found e then ok none else err e

  unfoldable pub get : ℕ → World → Result (Option Record)
  get photo w = found (db.first photo w)

  unfoldable pub list_by_gallery : World → ℕ → ℕ → ℕ → Result (List Record × ℕ)
  list_by_gallery w gallery offset limit = do
    total ← db.count gallery w
    records ← db.find gallery (if_positive offset) (if_positive limit) w
    ok (records, total)
