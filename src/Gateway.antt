-- ===== src/Gateway.antt =====
-- internal/handlers/upload.go: the gateway's side of an upload.
pub mod RoundTrip
pub mod Http
pub mod Uploading
pub mod Listing
pub mod Streaming
mod Tests
use progetto_sdcc.Prelude.{
  ℕ, String, Bool, true, false, Option, none, some, List, [], ◌∷◌, ◌++◌, Error, eof, Result, ok,
  err, is_eof, is_empty, if◌then◌else◌, length, ◌==◌,
}
use progetto_sdcc.Prelude.Int.{ℤ, pos}
use progetto_sdcc.Upload.Stream.{
  UploadMetadata, Payload, metadata, chunk_data, Incoming, message, ended,
}

-- What `file.Read` yields, call after call: the bytes read and an error, nil in `more`.
pub data Reads : Type 0 where
  more : List ℕ → Reads → Reads
  finished : List ℕ → Error → Reads

-- The part of the HTTP request that the handler reads: the form file `photo` with its header, and
-- the form value `galleryId`.
pub record UploadForm : Type 0 where
  pub filename : String
  pub content_type : String
  pub size : ℤ
  pub file : Reads
  pub gallery_id : String

-- How the handler answers before the stream is closed, or the messages that it has sent.
pub data Sent : Type 0 where
  bad_request : String → Sent
  internal_error : Error → Sent
  all_sent : List Payload → Sent

abbrev pub sent_first : Payload → Sent → Sent
sent_first p (bad_request s) = bad_request s
sent_first p (internal_error e) = internal_error e
sent_first p (all_sent ps) = all_sent (p ∷ ps)

-- A read of no bytes sends nothing.
abbrev send_chunk : List ℕ → Sent → Sent
send_chunk [] rest = rest
send_chunk (b ∷ bs) rest = sent_first (chunk_data (b ∷ bs)) rest

-- `readErr == io.EOF`
abbrev pub is_end : Error → Bool
is_end eof = true
is_end _ = false

-- The loop over the chunks, where no `Send` fails.
unfoldable pub send_chunks : Reads → Sent
send_chunks (more bytes rest) = send_chunk bytes (send_chunks rest)
send_chunks (finished bytes e) =
    send_chunk bytes (if is_end e then all_sent [] else internal_error e)

unfoldable pub upload_photo : Option UploadForm → Sent
upload_photo none = bad_request "photo is required"
upload_photo (some form) =
    if is_empty form.gallery_id
    then bad_request "galleryId is required"
    else sent_first
        (metadata (record {
          gallery_id = form.gallery_id;
          filename = form.filename;
          content_type = form.content_type;
          total_size_bytes = form.size;
        }))
        (send_chunks form.file)

-- What the server receives of messages that were sent, the stream then closed.
abbrev pub received : List Payload → Incoming
received [] = ended eof
received (p ∷ ps) = message p (received ps)
