-- ===== src/Gallery/Database/Answers.antt =====
-- What the queries of internal/gallery/query answer over the repository of the same package.
use progetto_sdcc.Prelude.{
  ℕ, ◌≡◌, refl, Bool, Option, none, some, status, not_found, Result, ok, err, inl, inr,
  Option-cases,
}
use progetto_sdcc.Gallery.{Gallery, GalleryStatus}
use progetto_sdcc.Gallery.Query as Query
use progetto_sdcc.Gallery.Query.{Uuids}
use progetto_sdcc.Gallery.Database.{Db}
use progetto_sdcc.Gallery.Database.Queries.{query_repository, is_member, gallery_exists}
use progetto_sdcc.Gallery.Database.Meaning.{WriteLaws, ReadLaws}

module _ (db : Db) (writes : WriteLaws db) (reads : ReadLaws db writes) where
  -- What is known of a user and a gallery.
  abbrev pub answer_of : Bool → Option Gallery → Result (Bool × GalleryStatus)
  answer_of b none = err (status not_found "gallery not found")
  answer_of b (some g) = ok (b, g.gallery_status)

  -- While the database serves, IsMember answers for a gallery that is in the table whether the user
  -- is one of its members, with the gallery's status, and for another that it is not found.
  pub is_member-tables :
      (uuids : Uuids) (id user : ℕ) (w : db.World)
      → Query.is_member uuids (query_repository db w) id user
        ≡ answer_of ((writes.tables w).members id user) ((writes.tables w).galleries id)
  unfolding Query.is_member is_member gallery_exists
  is_member-tables uuids id user w = elim (Option-cases ((writes.tables w).galleries id)) [
    | inl h ↦ rw (reads.counted_none id w h, h) refl
    | inr (g, h) ↦
        let (ms, loaded, those) = reads.preloaded id user g w h in
        rw (reads.counted_one id g w h, loaded, those, h) refl
  ]
