-- ===== src/Upload/Postgres/Contents.antt =====
-- What is in the table, and what the service lists of it.
use progetto_sdcc.Prelude.{
  ℕ, ◌+◌, ◌≡◌, refl, ap, ◌∙◌, String, true, false, Option, none, some, List, map, Error, ok, err,
  is_ok, ltb, ◌==◌, arith, is_empty, if◌then◌else◌, take, drop, length, inl, inr, Bool-cases, ◌&&◌,
  Option-cases, zero, suc, sym,
}
use progetto_sdcc.Prelude.Int.{ℤ}
use progetto_sdcc.Upload.Record.{Record}
use progetto_sdcc.Upload.Listing.{Texts, summary}
use progetto_sdcc.Upload.Listing.Paging.{WritesNumbers, Lists, follow_pages, follow_pages-all}
use progetto_sdcc.Upload.Postgres.Order.{Descending, Falling, Reordered, Reordered-Falling}
use progetto_sdcc.Upload.Postgres.{Db, save, get, list_by_gallery}

abbrev pub offset_rows : Option ℕ → List Record → List Record
offset_rows none rs = rs
offset_rows (some n) rs = drop n rs

abbrev pub limit_rows : Option ℕ → List Record → List Record
limit_rows none rs = rs
limit_rows (some n) rs = take n rs

-- What the database promises while it serves: `rows` is a gallery's part of the table, the newest
-- first, `stored` the row of a photo. Each query for a page orders the rows for itself, and two
-- queries may order rows of the same time differently.
pub record Laws (db : Db) : Type 0 where
  pub stored : db.World → ℕ → Option Record
  pub rows : db.World → ℕ → List Record
  pub created :
      (rec : Record) (w : db.World) (photo : ℕ)
      → stored (db.create rec w).1 photo ≡ (
          if is_ok (db.create rec w).0 && (photo == rec.photo_id) then some rec else stored w photo)
  pub first_some :
      (photo : ℕ) (rec : Record) (w : db.World)
      → stored w photo ≡ some rec
      → db.first photo w ≡ ok rec
  pub first_none :
      (photo : ℕ) (w : db.World)
      → stored w photo ≡ none
      → (e : Error) × (db.first photo w ≡ err e) × (db.is_not_found e ≡ true)
  pub counted : (gallery : ℕ) (w : db.World) → db.count gallery w ≡ ok (length (rows w gallery))
  pub listed :
      (gallery : ℕ) (offset limit : Option ℕ) (w : db.World)
      → (rs : List Record) × (db.find gallery offset limit w
          ≡ ok (limit_rows limit (offset_rows offset rs)))
        × Descending rs
        × Reordered rs (rows w gallery)

module _ (db : Db) (laws : Laws db) where
  get-stored : (photo : ℕ) (w : db.World) → get db photo w ≡ ok (laws.stored w photo)
  unfolding get
  get-stored photo w = elim (Option-cases (laws.stored w photo)) [
    | inl h ↦ let (e, q, missing) = laws.first_none photo w h in rw (h, q, missing) refl
    | inr (rec, h) ↦ rw (h, laws.first_some photo rec w h) refl
  ]

  -- After saving a record, whether that succeeded or not, getting a photo finds what was saved last
  -- for it: the record, if it is the one just saved, and else what was found before.
  pub get-save :
      (rec : Record) (w : db.World) (photo : ℕ)
      → get db photo (save db rec w).1 ≡ (
          if is_ok (save db rec w).0 && (photo == rec.photo_id)
          then ok (some rec)
          else get db photo w)
  unfolding save
  get-save rec w photo =
      let here = is_ok (db.create rec w).0 && (photo == rec.photo_id) in
      get-stored photo (db.create rec w).1
      ∙ ap (λ (r : Option Record). ok r) (laws.created rec w photo)
      ∙ elim (Bool-cases here) [ inl h ↦ rw h refl | inr h ↦ rw h (sym (get-stored photo w)) ]

  positive : (n : ℕ) → ltb 0 (suc n) ≡ true
  positive n = ground arith

  not_zero : (n : ℕ) → (suc n == 0) ≡ false
  not_zero n = ground arith

  find-rows :
      (gallery : ℕ) (offset limit : Option ℕ) (w : db.World)
      → Falling (laws.rows w gallery)
      → db.find gallery offset limit w
        ≡ ok (limit_rows limit (offset_rows offset (laws.rows w gallery)))
  find-rows gallery offset limit w f =
      let (rs, q, d, o) = laws.listed gallery offset limit w in
      rw (← Reordered-Falling rs (laws.rows w gallery) o d f) q

  list_by_gallery-Lists :
      (w : db.World)
      → ((g : ℕ) → Falling (laws.rows w g))
      → Lists (list_by_gallery db w) (laws.rows w)
  unfolding list_by_gallery
  list_by_gallery-Lists w apart gallery zero zero =
      rw (laws.counted gallery w, find-rows gallery none none w (apart gallery)) refl
  list_by_gallery-Lists w apart gallery (suc n) zero =
      rw
        (
          laws.counted gallery w,
          positive n,
          find-rows gallery (some (suc n)) none w (apart gallery),
        )
        refl
  list_by_gallery-Lists w apart gallery zero (suc m) =
      rw
        (
          laws.counted gallery w,
          positive m,
          not_zero m,
          find-rows gallery none (some (suc m)) w (apart gallery),
        )
        refl
  list_by_gallery-Lists w apart gallery (suc n) (suc m) =
      rw
        (
          laws.counted gallery w,
          positive n,
          positive m,
          not_zero m,
          find-rows gallery (some (suc n)) (some (suc m)) w (apart gallery),
        )
        refl

  -- While the database serves, and if no two photos of a gallery were uploaded at the same time, the
  -- service with the repository in Postgres, asked page by page with the tokens that it hands out and
  -- any page size, lists the rows of the gallery, the newest first and each once, within one call
  -- more than there are rows.
  pub follow_pages-rows :
      (texts : Texts) (w : db.World) (gallery : String) (size : ℤ)
      → WritesNumbers texts
      → ((g : ℕ) → Falling (laws.rows w g))
      → is_empty gallery ≡ false
      → follow_pages texts
          (list_by_gallery db w)
          gallery
          size
          (length (laws.rows w (texts.parse_uuid gallery)) + 1)
          ""
        ≡ ok (map (summary texts) (laws.rows w (texts.parse_uuid gallery)))
  follow_pages-rows texts w gallery size writes apart named =
      follow_pages-all texts (list_by_gallery db w) (laws.rows w) gallery size writes
        (list_by_gallery-Lists w apart) named
