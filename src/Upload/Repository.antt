-- ===== src/Upload/Repository.antt =====
-- internal/upload/repository.go: the `Repository` interface and its in-memory implementation. An
-- offset is not negative, as the listing checks; a limit that is not positive is 0.
pub mod Contents
use progetto_sdcc.Prelude.{
  ℕ, ◌+◌, ◌||◌, Bool, true, false, Option, none, some, List, [], ◌∷◌, ◌++◌, reverse, ltb, ◌==◌,
  if◌then◌else◌, length, take, drop,
}
use progetto_sdcc.Prelude.Dict.{Dict, lookup, insert, has}
use progetto_sdcc.Upload.Record.{Record}

pub record InMemoryRepository : Type 0 where
  pub records : Dict Record
  -- The photos of a gallery, in the order in which they were saved first.
  pub gallery_index : Dict (List ℕ)

pub empty : InMemoryRepository
empty = record { records = []; gallery_index = [] }

-- `r.galleryIndex[galleryID]`, nil for a gallery that is not there.
abbrev pub index_of : ℕ → InMemoryRepository → List ℕ
index_of g r = elim (lookup g r.gallery_index) [ none ↦ [] | some ids ↦ ids ]

unfoldable pub save : Record → InMemoryRepository → InMemoryRepository
save rec r = record {
  gallery_index =
      if has rec.photo_id r.records
      then r.gallery_index
      else insert rec.gallery_id (index_of rec.gallery_id r ++ rec.photo_id ∷ []) r.gallery_index;
  records = insert rec.photo_id rec r.records;
}

unfoldable pub get : ℕ → InMemoryRepository → Option Record
get photo r = lookup photo r.records

-- The loop of ListByGallery over the page.
unfoldable pub collect : InMemoryRepository → List ℕ → List Record
collect r [] = []
collect r (id ∷ ids) =
    let out = collect r ids in elim (lookup id r.records) [ none ↦ out | some rec ↦ rec ∷ out ]

-- The bounds of the page: `offset` and `end` after the corrections.
abbrev pub page_start : ℕ → ℕ → ℕ
page_start offset total = if ltb total offset then total else offset

abbrev pub page_end : ℕ → ℕ → ℕ → ℕ
page_end start limit total =
    if limit == 0 || ltb total (start + limit) then total else start + limit

-- The page and the number of all photos of the gallery.
unfoldable pub list_by_gallery : ℕ → ℕ → ℕ → InMemoryRepository → List Record × ℕ
list_by_gallery g offset limit r =
    let ids = index_of g r in
    let total = length ids in
    let start = page_start offset total in
    (collect r (drop start (take (page_end start limit total) (reverse ids))), total)
