-- ===== src/Gateway/Listing/FirstPage.antt =====
-- What the browser gets of a gallery's photos.
use progetto_sdcc.Prelude.{
  ℕ, ◌+◌, ◌≤◌, ◌≡◌, refl, String, true, false, List, map, length, take, length-take, length-map,
  map-take, ltb, min, if◌then◌else◌, arith, ok, is_empty, inl, inr, Bool-cases,
}
use progetto_sdcc.Prelude.Int.{pos}
use progetto_sdcc.Upload.Record.{Record}
use progetto_sdcc.Upload.Listing.{Texts, Lister, summary, list_uploads, parse_page_token}
use progetto_sdcc.Upload.Listing.Paging.{Lists}
use progetto_sdcc.Gateway.Http.{Web, UploadSummaryDto, uploads, status_ok}
use progetto_sdcc.Gateway.Listing.{UploadHandler, dto, gateway_page_size, list_uploads_handler}

none_left : (n m : ℕ) → m ≡ min 100 n → ltb 100 n ≡ false → ltb (0 + m) n ≡ false
none_left n m e h = ground arith

full_page : (n m : ℕ) → m ≡ min 100 n → ltb 100 n ≡ true → m ≡ 100
full_page n m e h = ground arith

module _ (web : Web) (h : UploadHandler) (texts : Texts) (list : Lister) (rows : ℕ → List Record)
    (lists : Lists list rows) where
  -- The photos of a gallery as the browser gets them.
  abbrev pub photos : String → List UploadSummaryDto
  photos gallery = map (dto h) (map (summary texts) (rows (texts.parse_uuid gallery)))

  first_page :
      (gallery : String)
      → is_empty gallery ≡ false
      → list_uploads texts list
          (record { gallery_id = gallery; page_size = pos gateway_page_size; page_token = "" })
        ≡ ok (record {
          uploads = map (summary texts) (take 100 (rows (texts.parse_uuid gallery)));
          next_page_token =
              if ltb 100 (length (rows (texts.parse_uuid gallery))) then texts.itoa 100 else "";
        })
  unfolding list_uploads parse_page_token
  first_page gallery e =
      let all = rows (texts.parse_uuid gallery) in
      let cut : length (take 100 all) ≡ min 100 (length all) = length-take 100 all in
      elim (Bool-cases (ltb 100 (length all))) [
        | inl more ↦
            let hundred : length (take 100 all) ≡ 100 = full_page (length all) _ cut more in
            rw (e, lists (texts.parse_uuid gallery) 0 100, hundred, more) refl
        | inr done ↦
            let last : ltb (0 + length (take 100 all)) (length all) ≡ false =
              none_left (length all) _ cut done in
            rw (e, lists (texts.parse_uuid gallery) 0 100, last, done) refl
      ]

  -- If the repository lists a gallery page by page, the browser's request for the photos of a
  -- gallery is answered with the first 100 photos of it, and no more, in the order of the
  -- repository; the token in the answer is set just if there are more.
  pub list_uploads_handler-first :
      (gallery : String)
      → is_empty gallery ≡ false
      → (list_uploads_handler web h (list_uploads texts list) gallery ≡ record {
        code = status_ok;
        body =
            uploads
              (take 100 (photos gallery))
              (if ltb 100 (length (photos gallery)) then texts.itoa 100 else "");
      })
        × (length (take 100 (photos gallery)) ≤ 100)
  unfolding list_uploads_handler
  list_uploads_handler-first gallery e =
      let all = rows (texts.parse_uuid gallery) in
      let few = length-take 100 (photos gallery) in
      (
        rw
            (
              e,
              first_page gallery e,
              map-take (summary texts) 100 all,
              map-take (dto h) 100 (map (summary texts) all),
              length-map (dto h) (map (summary texts) all),
              length-map (summary texts) all,
            )
            refl,
        omega (arith, few),
      )
