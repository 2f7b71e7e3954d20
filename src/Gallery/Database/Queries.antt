-- ===== src/Gallery/Database/Queries.antt =====
-- internal/gallery/query/repository.go: GormQueryRepository. A limit of 0 is 20, and a page starts at
-- the beginning for the identifier Nil, which is 0.
use progetto_sdcc.Prelude.{
  ℕ, zero, suc, Bool, true, false, Option, none, some, List, [], ◌∷◌, Result, ok, ◌>>=◌, ltb, ◌==◌,
  if◌then◌else◌,
}
use progetto_sdcc.Prelude.Int.{ℤ, pos, negsuc}
use progetto_sdcc.Gallery.{Gallery, GalleryStatus, Member}
use progetto_sdcc.Gallery.Query.{QueryRepository}
use progetto_sdcc.Gallery.Database.{Db}

-- `if limit == 0 { limit = 20 }`
abbrev pub default_limit : ℤ → ℤ
default_limit (pos zero) = pos 20
default_limit (pos (suc n)) = pos (suc n)
default_limit (negsuc n) = negsuc n

-- `if after != uuid.Nil { q = q.Where(...) }`
abbrev pub after_clause : ℕ → Option ℕ
after_clause after = if after == 0 then none else some after

-- `len(members) > 0`
abbrev pub has_rows : List Member → Bool
has_rows [] = false
has_rows (m ∷ ms) = true

module _ (db : Db) (w : db.World) where
  unfoldable pub get_gallery : ℕ → Result Gallery
  get_gallery id = db.first_gallery id w

  unfoldable pub list_galleries : ℤ → ℕ → Result (List Gallery)
  list_galleries limit after = db.find_galleries (after_clause after) (default_limit limit) w

  unfoldable pub list_galleries_by_member : ℕ → ℤ → ℕ → Result (List Gallery)
  list_galleries_by_member user limit after =
      db.find_joined user (after_clause after) (default_limit limit) w

  unfoldable pub list_members : ℕ → Result (List Member)
  list_members id = db.find_members id w

  unfoldable pub gallery_exists : ℕ → Result Bool
  gallery_exists id = do c ← db.count_galleries id w; ok (ltb 0 c)

  unfoldable pub is_member : ℕ → ℕ → Result (Bool × GalleryStatus)
  is_member id user = do
    (gallery, members) ← db.first_with_member user id w
    ok (has_rows members, gallery.gallery_status)

  -- `NewQueryRepository`, as the interface that the service takes.
  abbrev pub query_repository : QueryRepository
  query_repository = record {
    get_gallery = get_gallery;
    list_galleries = list_galleries;
    list_galleries_by_member = list_galleries_by_member;
    list_members = list_members;
    gallery_exists = gallery_exists;
    is_member = is_member;
  }
