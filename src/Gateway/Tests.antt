-- ===== src/Gateway/Tests.antt =====
-- A file of three bytes that is read in two pieces, with an empty read between them.
use progetto_sdcc.Prelude.{refl, [], ◌∷◌, eof, arith}
use progetto_sdcc.Prelude.Int.{pos}
use progetto_sdcc.Gateway.{more, finished, UploadForm}
use progetto_sdcc.Gateway.RoundTrip.{Transmitted, upload_photo-Transmitted}

abbrev form : UploadForm
form = record {
  filename = "sea.jpg";
  content_type = "image/jpeg";
  size = pos 3;
  file = more (255 ∷ 216 ∷ []) (more [] (finished (1 ∷ []) eof));
  gallery_id = "gallery-7";
}

upload_photo-Transmitted_example : Transmitted form
upload_photo-Transmitted_example =
    upload_photo-Transmitted form refl refl (omega arith) (omega arith) refl
