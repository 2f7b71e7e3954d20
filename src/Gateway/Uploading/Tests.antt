-- ===== src/Gateway/Uploading/Tests.antt =====
-- A form of three bytes, and a service that answers every upload with the same identifier.
use progetto_sdcc.Prelude.{◌≡◌, String, some, List, [], ◌∷◌, Result, ok, eof, arith, not_found}
use progetto_sdcc.Prelude.Int.{pos}
use progetto_sdcc.Upload.Stream.{Payload}
use progetto_sdcc.Gateway.{more, finished, UploadForm, upload_photo}
use progetto_sdcc.Gateway.Http.{Web}
use progetto_sdcc.Gateway.Uploading.{upload_handler}
use progetto_sdcc.Gateway.Uploading.Answers.{recorder, response_to, upload_handler-response}
use progetto_sdcc.Gateway.Uploading.Success.{ErrorsFail, Answered, upload_handler-Answered}

abbrev form : UploadForm
form = record {
  filename = "sea.jpg";
  content_type = "image/jpeg";
  size = pos 3;
  file = more (255 ∷ 216 ∷ []) (finished (1 ∷ []) eof);
  gallery_id = "gallery-7";
}

abbrev web : Web
web = record {
  from_error = λ e. some (not_found, "no photo");
  http_status = λ code. 404;
  text = λ e. "an error";
}

abbrev answer : List Payload → Result String
answer ps = ok "photo-3"

errors : ErrorsFail web
errors code e = ground arith

upload_handler-response_example :
    (upload_handler web (recorder answer) (some form) []).0
    ≡ response_to web answer [] (upload_photo (some form))
upload_handler-response_example = upload_handler-response web answer (some form)

upload_handler-Answered_example :
    Answered web (recorder answer) errors (upload_handler web (recorder answer) (some form) [])
upload_handler-Answered_example =
    upload_handler-Answered web (recorder answer) errors (some form) []
