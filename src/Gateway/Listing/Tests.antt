-- ===== src/Gateway/Listing/Tests.antt =====
-- A repository that lists the same two records for every gallery.
use progetto_sdcc.Prelude.{
  ℕ, ◌≤◌, ◌≡◌, refl, some, none, List, [], ◌∷◌, ok, internal, page, take, length,
}
use progetto_sdcc.Upload.Record.{Record}
use progetto_sdcc.Upload.Listing.{Texts, Lister, list_uploads}
use progetto_sdcc.Upload.Listing.Paging.{Lists}
use progetto_sdcc.Gateway.Http.{Web, uploads, status_ok}
use progetto_sdcc.Gateway.Listing.{UploadHandler, list_uploads_handler}
use progetto_sdcc.Gateway.Listing.FirstPage.{photos, list_uploads_handler-first}

abbrev photo_of : ℕ → Record
photo_of n = record {
  photo_id = n;
  gallery_id = 7;
  uploader_id = 5;
  filename = "sea.jpg";
  content_type = "image/jpeg";
  storage_key = "7/sea.jpg";
  size_bytes = 3;
  error_message = "";
  uploaded_at = 1000;
  updated_at = 1000;
}

abbrev rows : ℕ → List Record
rows g = photo_of 2 ∷ photo_of 1 ∷ []

abbrev lister : Lister
lister g offset limit = ok (page offset limit (rows g), length (rows g))

lister-Lists : Lists lister rows
lister-Lists g offset limit = refl

abbrev texts : Texts
texts = record {
  atoi = λ s. none;
  itoa = λ n. "100";
  parse_uuid = λ s. 7;
  uuid_string = λ n. "an id";
}

abbrev web : Web
web = record {
  from_error = λ e. some (internal, "unavailable");
  http_status = λ code. 500;
  text = λ e. "an error";
}

abbrev handler : UploadHandler
handler = record {
  minio_public_url = "http://localhost:9000";
  minio_bucket = "photos";
  format_time = λ t. "now";
}

list_uploads_handler-first_example :
    (list_uploads_handler web handler (list_uploads texts lister) "gallery-7" ≡ record {
      code = status_ok;
      body = uploads (photos web handler texts lister rows lister-Lists "gallery-7") "";
    })
    × (length (take 100 (photos web handler texts lister rows lister-Lists "gallery-7")) ≤ 100)
list_uploads_handler-first_example =
    list_uploads_handler-first web handler texts lister rows lister-Lists "gallery-7" refl
