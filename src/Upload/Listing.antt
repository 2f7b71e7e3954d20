-- ===== src/Upload/Listing.antt =====
-- `Server.ListUploads` and `parsePageToken` in internal/upload/api/grpc.go. The repository is any
-- function that lists a gallery; `strconv` and the UUID library are parameters.
pub mod Paging
use progetto_sdcc.Prelude.{
  ℕ, ◌+◌, String, Bool, true, false, not, Option, none, some, List, map, Error, status, statusf,
  invalid_argument, internal, Result, ok, err, ◌>>=◌, ◌>>◌, guard, on_error, is_empty, ltb, ◌==◌,
  if◌then◌else◌, length,
}
use progetto_sdcc.Prelude.Int.{ℤ, pos, negsuc}
use progetto_sdcc.Upload.Record.{Record}

-- `strconv.Atoi`, `strconv.Itoa`, `uuid.Parse` (its value) and `UUID.String`.
pub record Texts : Type 0 where
  pub atoi : String → Option ℤ
  pub itoa : ℕ → String
  pub parse_uuid : String → ℕ
  pub uuid_string : ℕ → String

pub record ListUploadsRequest : Type 0 where
  pub gallery_id : String
  pub page_size : ℤ
  pub page_token : String

pub record UploadSummary : Type 0 where
  pub photo_id : String
  pub gallery_id : String
  pub uploader_user_id : String
  pub storage_key : String
  pub size_bytes : ℕ
  pub uploaded_at : ℕ

pub record ListUploadsResponse : Type 0 where
  pub uploads : List UploadSummary
  pub next_page_token : String

abbrev pub default_list_page_size : ℕ
default_list_page_size = 20

abbrev pub max_list_page_size : ℕ
max_list_page_size = 100

-- The `limit` of a page size.
abbrev pub list_limit : ℤ → ℕ
list_limit (negsuc n) = default_list_page_size
list_limit (pos n) =
    if n == 0
    then default_list_page_size
    else if ltb max_list_page_size n
    then max_list_page_size
    else n

-- `Repository.ListByGallery`: gallery, offset and limit.
abbrev pub Lister : Type 0
Lister = ℕ → ℕ → ℕ → Result (List Record × ℕ)

module _ (texts : Texts) where
  -- An offset of at least 0, or none: what Atoi yields may be negative.
  abbrev offset_of : Option ℤ → Result ℕ
  offset_of none = err (Error.plain "invalid page token")
  offset_of (some (negsuc n)) = err (Error.plain "invalid page token")
  offset_of (some (pos n)) = ok n

  unfoldable pub parse_page_token : String → Result ℕ
  parse_page_token token = if is_empty token then ok 0 else offset_of (texts.atoi token)

  abbrev pub summary : Record → UploadSummary
  summary rec = record {
    photo_id = texts.uuid_string rec.photo_id;
    gallery_id = texts.uuid_string rec.gallery_id;
    uploader_user_id = texts.uuid_string rec.uploader_id;
    storage_key = rec.storage_key;
    size_bytes = rec.size_bytes;
    uploaded_at = rec.uploaded_at;
  }

  abbrev next_token : ℕ → ℕ → String
  next_token next total = if ltb next total then texts.itoa next else ""

  unfoldable pub list_uploads : Lister → ListUploadsRequest → Result ListUploadsResponse
  unfolding parse_page_token
  list_uploads list_by_gallery req = do
    guard (not (is_empty req.gallery_id)) (status invalid_argument "gallery_id is required")
    offset ←
        on_error (λ _. status invalid_argument "invalid page_token")
          (parse_page_token req.page_token)
    let limit = list_limit req.page_size
    (records, total) ←
        on_error (statusf internal "list uploads")
          (list_by_gallery (texts.parse_uuid req.gallery_id) offset limit)
    ok (record {
      uploads = map summary records;
      next_page_token = next_token (offset + length records) total;
    })
