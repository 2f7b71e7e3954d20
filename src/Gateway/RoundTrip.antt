-- ===== src/Gateway/RoundTrip.antt =====
-- The gateway's upload against the receiving loop of the upload service.
use progetto_sdcc.Prelude.{
  ℕ, ◌≤◌, ◌<◌, ◌≡◌, refl, sym, ap, ◌∙◌, true, false, some, List, [], ◌∷◌, ◌++◌, arith, Error, eof,
  ok, is_empty, length,
}
use mathlib.Core.List.{append-nil}
use progetto_sdcc.Prelude.Int.{pos}
use progetto_sdcc.Upload.Stream.{
  UploadMetadata, Payload, metadata, chunk_data, message, max_photo_bytes, receive_photo,
}
use progetto_sdcc.Upload.Stream.Accepted.{sending, concat, receive_photo_iff}
use progetto_sdcc.Gateway.{
  is_end, Reads, more, finished, UploadForm, all_sent, send_chunks, upload_photo, received,
}

-- The content of a file, and how its reading ends.
abbrev pub content : Reads → List ℕ
content (more bytes rest) = bytes ++ content rest
content (finished bytes e) = bytes

abbrev pub read_error : Reads → Error
read_error (more bytes rest) = read_error rest
read_error (finished bytes e) = e

-- The chunks of a file: its reads of at least one byte.
abbrev chunk : List ℕ → List (List ℕ) → List (List ℕ)
chunk [] cs = cs
chunk (b ∷ bs) cs = (b ∷ bs) ∷ cs

abbrev chunks : Reads → List (List ℕ)
chunks (more bytes rest) = chunk bytes (chunks rest)
chunks (finished bytes e) = chunk bytes []

abbrev payloads : List (List ℕ) → List Payload
payloads [] = []
payloads (c ∷ cs) = chunk_data c ∷ payloads cs

received-payloads : (cs : List (List ℕ)) → received (payloads cs) ≡ sending cs eof
received-payloads [] = refl
received-payloads (c ∷ cs) = ap (message (chunk_data c)) (received-payloads cs)

concat-chunk : (bytes : List ℕ) (cs : List (List ℕ)) → concat (chunk bytes cs) ≡ bytes ++ concat cs
concat-chunk [] cs = refl
concat-chunk (b ∷ bs) cs = refl

concat-chunks : (f : Reads) → concat (chunks f) ≡ content f
concat-chunks (more bytes rest) =
    concat-chunk bytes (chunks rest) ∙ ap (λ (l : List ℕ). bytes ++ l) (concat-chunks rest)
concat-chunks (finished bytes e) = concat-chunk bytes [] ∙ append-nil bytes

send_chunks-payloads :
    (f : Reads) → is_end (read_error f) ≡ true → send_chunks f ≡ all_sent (payloads (chunks f))
unfolding send_chunks
send_chunks-payloads (more [] rest) h = send_chunks-payloads rest h
send_chunks-payloads (more (b ∷ bs) rest) h = ground (arith, send_chunks-payloads rest h)
send_chunks-payloads (finished [] e) h = ground arith
send_chunks-payloads (finished (b ∷ bs) e) h = ground arith

abbrev pub metadata_of : UploadForm → UploadMetadata
metadata_of form = record {
  gallery_id = form.gallery_id;
  filename = form.filename;
  content_type = form.content_type;
  total_size_bytes = form.size;
}

-- What the gateway has sent of a form, and what the service makes of it.
pub record Transmitted (form : UploadForm) : Type 0 where
  pub messages : List Payload
  pub sent : upload_photo (some form) ≡ all_sent messages
  pub arrived : receive_photo (received messages) ≡ ok (metadata_of form, content form.file)

-- If a form names a gallery and its file is read to its end, has at least one byte and at most the
-- maximum, and its declared size is its size, then the gateway sends the file, and the upload
-- service receives the metadata of the form and the content of the file, however it was cut.
pub upload_photo-Transmitted :
    (form : UploadForm)
    → is_empty form.gallery_id ≡ false
    → is_end (read_error form.file) ≡ true
    → 0 < length (content form.file)
    → length (content form.file) ≤ max_photo_bytes
    → form.size ≡ pos (length (content form.file))
    → Transmitted form
unfolding upload_photo
upload_photo-Transmitted form named whole some_data fits declared =
    let cs = chunks form.file in
    record {
      messages = metadata (metadata_of form) ∷ payloads cs;
      sent = ground (arith, send_chunks-payloads form.file whole);
      arrived =
          (receive_photo_iff (received (metadata (metadata_of form) ∷ payloads cs))
              (metadata_of form) (content form.file)).1
            record {
              chunks = cs;
              last = eof;
              shape = ap (message (metadata (metadata_of form))) (received-payloads cs);
              closed = refl;
              whole = sym (concat-chunks form.file);
              named = named;
              some_data = some_data;
              fits = fits;
              declared_fits = rw declared (ground arith);
              declared_right = rw declared (ground arith);
            };
    }
