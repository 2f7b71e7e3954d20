-- ===== src/Gateway/Uploading/Answers.antt =====
-- How the gateway answers an upload.
use mathlib.Core.List.{append_assoc, append-nil}
use progetto_sdcc.Prelude.{
  ◌≡◌, refl, sym, ap, ◌∙◌, String, Option, none, some, List, [], ◌∷◌, ◌++◌, Result, ok, err,
  is_empty, inl, inr, Bool-cases,
}
use progetto_sdcc.Upload.Stream.{Payload, chunk_data}
use progetto_sdcc.Gateway.{
  Reads, more, finished, UploadForm, is_end, Sent, all_sent, send_chunks, upload_photo,
}
use progetto_sdcc.Gateway as Gateway
use progetto_sdcc.Gateway.Http.{Web, Response, bad_request, internal_server_error}
use progetto_sdcc.Gateway.Uploading.{UploadClient, answered, send_file, upload_handler}

-- A stream on which no call fails but the last: it keeps what was sent, and answers by that.
abbrev pub recorder : (List Payload → Result String) → UploadClient
recorder answer = record {
  World = List Payload;
  open_stream = λ w. (ok tt, w);
  send = λ p w. (ok tt, w ++ (p ∷ []));
  close_and_recv = λ w. (answer w, w);
}

module _ (web : Web) (answer : List Payload → Result String) where
  abbrev client : UploadClient
  client = recorder answer

  -- The response to what was sent, after what was sent before.
  abbrev pub response_to : List Payload → Sent → Response
  response_to before (Gateway.bad_request s) = bad_request s
  response_to before (Gateway.internal_error e) = internal_server_error (web.text e)
  response_to before (all_sent ps) = (answered web client (answer (before ++ ps), [])).0

  response_to-first :
      (before : List Payload) (p : Payload) (s : Sent)
      → response_to (before ++ (p ∷ [])) s ≡ response_to before (Gateway.sent_first p s)
  response_to-first before p (Gateway.bad_request s) = refl
  response_to-first before p (Gateway.internal_error e) = refl
  response_to-first before p (all_sent ps) =
      ap (λ (l : List Payload). (answered web client (answer l, [])).0)
        (append_assoc before (p ∷ []) ps)

  answered-same :
      (x : Result String) (w : List Payload)
      → (answered web client (x, w)).0 ≡ (answered web client (x, [])).0
  answered-same (ok id) w = refl
  answered-same (err e) w = refl

  send_file-response :
      (f : Reads) (before : List Payload)
      → (send_file web client f before).0 ≡ response_to before (send_chunks f)
  unfolding send_file send_chunks
  send_file-response (more [] rest) before = send_file-response rest before
  send_file-response (more (b ∷ bs) rest) before =
      send_file-response rest (before ++ (chunk_data (b ∷ bs) ∷ []))
      ∙ response_to-first before (chunk_data (b ∷ bs)) (send_chunks rest)
  send_file-response (finished [] e) before = elim (Bool-cases (is_end e)) [
    | inl h ↦ rw h (
        answered-same (answer before) before
        ∙ ap (λ (l : List Payload). (answered web client (answer l, [])).0)
            (sym (append-nil before)))
    | inr h ↦ rw h refl
  ]
  send_file-response (finished (b ∷ bs) e) before = elim (Bool-cases (is_end e)) [
    | inl h ↦ rw h (
        answered-same (answer (before ++ (chunk_data (b ∷ bs) ∷ [])))
          (before ++ (chunk_data (b ∷ bs) ∷ [])))
    | inr h ↦ rw h refl
  ]

  -- On a stream on which no call fails but the last, the handler answers as the messages of the
  -- form tell: it refuses a form without a file or a gallery, and reports a file that cannot be read;
  -- of any other form it sends exactly these messages, and answers with the identifier or the
  -- error that the service answers them with.
  pub upload_handler-response :
      (form : Option UploadForm)
      → (upload_handler web client form []).0 ≡ response_to [] (upload_photo form)
  unfolding upload_handler upload_photo
  upload_handler-response none = refl
  upload_handler-response (some form) = elim (Bool-cases (is_empty form.gallery_id)) [
    | inl h ↦ rw h refl
    | inr h ↦ rw h (send_file-response form.file _ ∙ response_to-first [] _ (send_chunks form.file))
  ]
