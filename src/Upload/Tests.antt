-- ===== src/Upload/Tests.antt =====
-- Two photos of one gallery and one of another; a client that sends three bytes in two chunks.
use progetto_sdcc.Prelude.{
  ℕ, zero, suc, ◌≡◌, refl, ap, String, true, false, none, some, List, [], ◌∷◌, eof, ok, Option,
}
use progetto_sdcc.Prelude.Int.{ℤ, pos}
use progetto_sdcc.Auth.{Claims}
use progetto_sdcc.CircuitBreaker.{CircuitBreaker, state_closed, admit}
use progetto_sdcc.Upload.Record.{Record, status_open}
use progetto_sdcc.Upload.Stream.{
  UploadMetadata, metadata, Incoming, message, receive, check_received, receive_photo,
}
use progetto_sdcc.Upload.Stream.Accepted.{Accepted, sending, receive_photo_iff}
use progetto_sdcc.Upload.Photo.{Services, Settings, Server, admit_upload, upload_photo}
use progetto_sdcc.Upload.Photo.Admission.{recorded, events, asked}
use progetto_sdcc.Upload.Photo.Trace.{Outcome, upload_photo-Outcome}
use progetto_sdcc.Upload.Photo.Identifiers.{admit_upload-unparsable}
use progetto_sdcc.Upload.Listing.{Texts}
use progetto_sdcc.Upload.Listing.Paging.{WritesNumbers}

abbrev photo_meta : UploadMetadata
photo_meta = record {
  gallery_id = "gallery-7";
  filename = "sea.jpg";
  content_type = "";
  total_size_bytes = pos 3;
}

abbrev three_bytes : Incoming
three_bytes = message (metadata photo_meta) (sending ((255 ∷ 216 ∷ []) ∷ (1 ∷ []) ∷ []) eof)

three_bytes_received : receive_photo three_bytes ≡ ok (photo_meta, 255 ∷ 216 ∷ 1 ∷ [])
unfolding receive_photo receive check_received
three_bytes_received = refl

receive_photo_iff_example : Accepted three_bytes photo_meta (255 ∷ 216 ∷ 1 ∷ [])
receive_photo_iff_example =
    (receive_photo_iff three_bytes photo_meta (255 ∷ 216 ∷ 1 ∷ [])).0 three_bytes_received

-- A world that counts what was drawn from it; identifiers are parsed and printed by their length.
abbrev strokes : String → ℕ
strokes String.[] = 0
strokes (String.◌∷◌ c s) = suc (strokes s)

abbrev tally : ℕ → String
tally zero = ""
tally (suc n) = String.◌∷◌ "I" (tally n)

abbrev friendly : Services
friendly = record {
  World = ℕ;
  ask_member = λ g u w. (ok (record { is_member = true; gallery_status = status_open }), w);
  list_members = λ g w. (ok ("II" ∷ []), w);
  put_object = λ k c b w. (ok "minio:9000/sea", w);
  save = λ x w. (ok tt, w);
  publish_photo = λ e w. w;
  send_and_close = λ x w. (ok tt, w);
  now = λ w. w;
  new_uuid = λ w. (w, suc w);
  parse_uuid = λ t. (0, false);
  uuid_string = tally;
}

abbrev settings : Settings
settings = record { minio_public_url = "http://localhost"; minio_bucket = "photos" }

abbrev caller : Claims
caller = record { user_id = 5; role = "ROLE_PHOTOGRAPHER" }

abbrev closed_breaker : CircuitBreaker
closed_breaker = record {
  current = state_closed;
  consecutive_failures = 0;
  last_failure = 0;
  probing = false;
  max_failures = 5;
  reset_timeout = 30;
}

abbrev idle : Server friendly settings
idle = record { gallery_breaker = closed_breaker; world = 100 }

abbrev idle_traced : Server (recorded friendly) settings
idle_traced = record { gallery_breaker = closed_breaker; world = (100, []) }

upload_photo-Outcome_example :
    Outcome friendly settings
      (some caller)
      three_bytes
      idle_traced
      (upload_photo (recorded friendly) settings (some caller) three_bytes idle_traced)
upload_photo-Outcome_example =
    upload_photo-Outcome friendly settings (some caller) three_bytes idle_traced

admit_upload-unparsable_example :
    let r = admit_upload (recorded friendly) settings (some caller) three_bytes idle_traced in
    (r.0 ≡ ok (record { meta = photo_meta; bytes = 255 ∷ 216 ∷ 1 ∷ []; gallery = 0; uploader = 5 }))
    × (events friendly settings r.1
        ≡ asked "" "IIIII" (ok (record { is_member = true; gallery_status = status_open })) ∷ [])
unfolding admit
admit_upload-unparsable_example =
    admit_upload-unparsable friendly settings caller three_bytes photo_meta (255 ∷ 216 ∷ 1 ∷ []) 0
      idle_traced three_bytes_received refl

abbrev photo_of : ℕ → ℕ → Record
photo_of p g = record {
  photo_id = p;
  gallery_id = g;
  uploader_id = 5;
  filename = "";
  content_type = "image/jpeg";
  storage_key = "";
  size_bytes = 3;
  error_message = "";
  uploaded_at = p;
  updated_at = p;
}

abbrev saved : List Record
saved = photo_of 3 7 ∷ photo_of 2 6 ∷ photo_of 1 7 ∷ []

abbrev number : String → Option ℤ
number String.[] = none
number (String.◌∷◌ c s) = some (pos (strokes s))

abbrev texts : Texts
texts = record {
  atoi = number;
  itoa = λ n. tally (suc n);
  parse_uuid = strokes;
  uuid_string = tally;
}

strokes-tally : (n : ℕ) → strokes (tally n) ≡ n
strokes-tally zero = refl
strokes-tally (suc n) = ap suc (strokes-tally n)

texts-WritesNumbers : WritesNumbers texts
texts-WritesNumbers = record {
  atoi-itoa = λ n. ap (λ (k : ℕ). some (pos k)) (strokes-tally n);
  not_empty = λ n. refl;
}
