-- ===== src/Upload/Postgres/Tests.antt =====
-- A database in which each gallery has the same two photos, the newest first.
use progetto_sdcc.Prelude.{
  ℕ, zero, suc, ◌+◌, arith, ◌≡◌, refl, ap, String, true, Option, none, some, List, [], ◌∷◌, map,
  plain, Result, ok, err, ◌==◌, if◌then◌else◌, length,
}
use progetto_sdcc.Prelude.Int.{ℤ, pos}
use progetto_sdcc.Upload.Record.{Record}
use progetto_sdcc.Upload.Listing.{Texts, summary}
use progetto_sdcc.Upload.Listing.Paging.{WritesNumbers, follow_pages}
use progetto_sdcc.Upload.Postgres.Order.{Reordered-same}
use progetto_sdcc.Upload.Postgres.{Db, list_by_gallery}
use progetto_sdcc.Upload.Postgres.Contents.{Laws, follow_pages-rows, limit_rows, offset_rows}

abbrev photo_of : ℕ → ℕ → Record
photo_of n gallery = record {
  photo_id = n;
  gallery_id = gallery;
  uploader_id = 5;
  filename = "sea.jpg";
  content_type = "image/jpeg";
  storage_key = "7/sea.jpg";
  size_bytes = 3;
  error_message = "";
  uploaded_at = 1000 + n;
  updated_at = 1000;
}

abbrev Table : Type 0
Table = ℕ → Option Record

abbrev two_rows : ℕ → List Record
two_rows g = photo_of 3 g ∷ photo_of 1 g ∷ []

abbrev row : Option Record → Result Record
row none = err (plain "record not found")
row (some rec) = ok rec

-- A database whose listing is fixed.
abbrev db : Db
db = record {
  World = Table;
  create = λ rec t. (ok tt, λ n. if n == rec.photo_id then some rec else t n);
  first = λ n t. row (t n);
  count = λ g t. ok (length (two_rows g));
  find = λ g offset limit t. ok (limit_rows limit (offset_rows offset (two_rows g)));
  is_not_found = λ e. true;
}

db-Laws : Laws db
db-Laws = record {
  stored = λ t. t;
  rows = λ t. two_rows;
  created = λ rec t n. refl;
  first_some = λ n rec t h. ap row h;
  first_none = λ n t h. (plain "record not found", ap row h, refl);
  counted = λ g t. refl;
  listed = λ g offset limit t.
      (two_rows g, refl, ((omega arith, tt), (tt, tt)), Reordered-same (two_rows g));
}

abbrev table : Table
table = λ n. none

abbrev strokes : String → ℕ
strokes String.[] = 0
strokes (String.◌∷◌ c s) = suc (strokes s)

abbrev tally : ℕ → String
tally zero = ""
tally (suc n) = String.◌∷◌ "I" (tally n)

strokes-tally : (n : ℕ) → strokes (tally n) ≡ n
strokes-tally zero = refl
strokes-tally (suc n) = ap suc (strokes-tally n)

abbrev number : String → Option ℤ
number String.[] = none
number (String.◌∷◌ c s) = some (pos (strokes s))

abbrev texts : Texts
texts = record {
  atoi = number;
  itoa = λ n. tally (suc n);
  parse_uuid = strokes;
  uuid_string = tally;
}

texts-WritesNumbers : WritesNumbers texts
texts-WritesNumbers = record {
  atoi-itoa = λ n. ap (λ (k : ℕ). some (pos k)) (strokes-tally n);
  not_empty = λ n. refl;
}

follow_pages-rows_example :
    follow_pages texts (list_by_gallery db table) "IIIIIII" (pos 1) 3 ""
    ≡ ok (map (summary texts) (photo_of 3 7 ∷ photo_of 1 7 ∷ []))
unfolding db-Laws
follow_pages-rows_example =
    follow_pages-rows db db-Laws texts table "IIIIIII" (pos 1) texts-WritesNumbers
      (λ g. ((omega arith, tt), (tt, tt))) refl
