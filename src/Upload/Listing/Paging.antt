-- ===== src/Upload/Listing/Paging.antt =====
-- A client that follows the page tokens sees every upload once.
use mathlib.Core.List.{map-append, append-nil}
use progetto_sdcc.Prelude.{
  ℕ, zero, suc, ◌+◌, ◌-◌, ◌≤◌, ◌<◌, ◌≡◌, refl, sym, ap, ◌∙◌, String, true, false, some, List, [],
  ◌++◌, map, arith, Result, ok, err, Error, ◌>>=◌, is_empty, ltb, if◌then◌else◌, length, take, drop,
  page, length-take, length-drop, drop-drop, take-append-drop, take_of_le, Bool-cases, inl, inr,
  min,
}
use progetto_sdcc.Prelude.Int.{ℤ, pos}
use progetto_sdcc.Upload.Record.{Record}
use progetto_sdcc.Upload.Repository.{InMemoryRepository, list_by_gallery}
use progetto_sdcc.Upload.Repository.Contents.{
  AllNew, of_gallery, repository_of, list_by_gallery-page,
}
use progetto_sdcc.Upload.Listing.{
  Texts, ListUploadsResponse, UploadSummary, Lister, list_limit, summary, list_uploads,
  parse_page_token,
}

-- What strconv promises: a number survives being written and read, and its text is not empty.
pub record WritesNumbers (texts : Texts) : Type 0 where
  pub atoi-itoa : (n : ℕ) → texts.atoi (texts.itoa n) ≡ some (pos n)
  pub not_empty : (n : ℕ) → is_empty (texts.itoa n) ≡ false

-- What the repository promises: pages of the records of the gallery, and their number.
abbrev pub Lists : Lister → (ℕ → List Record) → Type 0
Lists list rows =
    (g offset limit : ℕ) → list g offset limit ≡ ok (page offset limit (rows g), length (rows g))

-- A client's loop: the uploads of a page and of all pages behind it. Fuel bounds the pages.
pub follow_pages : Texts → Lister → String → ℤ → ℕ → String → Result (List UploadSummary)
follow_pages texts list gallery size zero token = err (Error.plain "out of fuel")
follow_pages texts list gallery size (suc fuel) token =
    list_uploads texts list (record { gallery_id = gallery; page_size = size; page_token = token })
    >>= λ response. elim (is_empty response.next_page_token) [
      | true ↦ ok response.uploads
      | false ↦ follow_pages texts list gallery size fuel response.next_page_token >>= λ rest.
          ok (response.uploads ++ rest)
    ]

list_limit_pos : (z : ℤ) → 0 < list_limit z
list_limit_pos z = ground arith

follow_pages-step :
    (texts : Texts) (list : Lister) (gallery : String) (size : ℤ) (fuel : ℕ) (token : String)
    (response : ListUploadsResponse) (behind : List UploadSummary)
    → list_uploads texts list
        (record { gallery_id = gallery; page_size = size; page_token = token })
      ≡ ok response
    → (if is_empty response.next_page_token
        then ◌≡◌ {A = Result (List UploadSummary)} (ok behind) (ok [])
        else follow_pages texts list gallery size fuel response.next_page_token ≡ ok behind)
    → follow_pages texts list gallery size (suc fuel) token ≡ ok (response.uploads ++ behind)
unfolding follow_pages
follow_pages-step texts list gallery size fuel token response behind e h =
    ground (arith, append-nil response.uploads)

token-itoa :
    (texts : Texts) (writes : WritesNumbers texts) (n : ℕ)
    → parse_page_token texts (texts.itoa n) ≡ ok n
unfolding parse_page_token
token-itoa texts writes n = ground (arith, writes.atoi-itoa n, writes.not_empty n)

module _ (texts : Texts) (list : Lister) (rows : ℕ → List Record) (gallery : String) (size : ℤ)
    (writes : WritesNumbers texts) (lists : Lists list rows)
    (named : is_empty gallery ≡ false) where
  abbrev all : List Record
  all = rows (texts.parse_uuid gallery)

  abbrev limit : ℕ
  limit = list_limit size

  -- One page, from a token that stands for an offset.
  one_page :
      (offset : ℕ) (token : String)
      → parse_page_token texts token ≡ ok offset
      → list_uploads texts list
          (record { gallery_id = gallery; page_size = size; page_token = token })
        ≡ ok (record {
          uploads = map (summary texts) (take limit (drop offset all));
          next_page_token =
              if ltb (offset + length (take limit (drop offset all))) (length all)
              then texts.itoa (offset + length (take limit (drop offset all)))
              else "";
        })
  unfolding list_uploads
  one_page offset token e =
      ground (arith, lists (texts.parse_uuid gallery) offset limit, list_limit_pos size)

  joined :
      (offset next : ℕ)
      → next ≡ offset + limit
      → map (summary texts) (take limit (drop offset all)) ++ map (summary texts) (drop next all)
        ≡ map (summary texts) (drop offset all)
  joined offset next e =
      sym (map-append (summary texts) (take limit (drop offset all)) (drop next all))
      ∙ ap (map (summary texts))
          (rw (e, ← drop-drop offset limit all) (take-append-drop limit (drop offset all)))

  last_page :
      (offset : ℕ)
      → length (drop offset all) ≤ limit
      → map (summary texts) (take limit (drop offset all)) ++ []
        ≡ map (summary texts) (drop offset all)
  last_page offset h =
      append-nil (map (summary texts) (take limit (drop offset all)))
      ∙ ap (map (summary texts)) (take_of_le limit (drop offset all) h)

  follow_pages-from :
      (fuel offset : ℕ) (token : String)
      → parse_page_token texts token ≡ ok offset
      → offset ≤ length all
      → length all < offset + fuel
      → follow_pages texts list gallery size fuel token ≡ ok (map (summary texts) (drop offset all))
  unfolding follow_pages
  follow_pages-from zero offset token e le h = absurd (omega arith)
  follow_pages-from (suc fuel) offset token e le h =
      let rest = drop offset all in
      let next = offset + length (take limit rest) in
      let pos_limit : 0 < limit = list_limit_pos size in
      let cut : length (take limit rest) ≡ min limit (length rest) = length-take limit rest in
      let left : length rest ≡ length all - offset = length-drop offset all in
      elim (Bool-cases (ltb next (length all))) [
        | inl more ↦
            let step : next ≡ offset + limit = ground arith in
            let behind =
              follow_pages-from fuel next (texts.itoa next) (token-itoa texts writes next)
                (ground arith) (ground arith) in
            follow_pages-step texts list gallery size fuel token _
              (map (summary texts) (drop next all)) (one_page offset token e)
              (rw (more, writes.not_empty next) behind)
            ∙ ap ok (joined offset next step)
        | inr done ↦
            follow_pages-step texts list gallery size fuel token _ [] (one_page offset token e)
              (rw done refl)
            ∙ ap ok (last_page offset (ground arith))
      ]

  -- If the repository lists a gallery page by page, then a client that starts without a token, asks
  -- for pages of any size and passes the token of each answer on receives the summaries of all
  -- records of the gallery, each once and in order, within as many calls as there are records, and
  -- one more.
  pub follow_pages-all :
      follow_pages texts list gallery size (length all + 1) ""
      ≡ ok (map (summary texts) (rows (texts.parse_uuid gallery)))
  unfolding parse_page_token
  follow_pages-all = follow_pages-from (length all + 1) 0 "" refl (omega arith) (omega arith)

-- The in-memory repository as the repository of the service.
abbrev pub in_memory : InMemoryRepository → Lister
in_memory r g offset limit = ok (list_by_gallery g offset limit r)

pub in_memory-Lists :
    (xs : List Record) → AllNew xs → Lists (in_memory (repository_of xs)) (λ g. of_gallery g xs)
in_memory-Lists xs new g offset limit = ap ok (list_by_gallery-page xs g offset limit new)
