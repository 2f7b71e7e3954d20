-- ===== src/Upload/Stream.antt =====
-- The receiving part of `Server.uploadPhoto` in internal/upload/api/grpc.go: the loop over the
-- chunks of a client stream and the checks on what was received. A message keeps the `%d` of its
-- format in place of the number.
pub mod Accepted
use progetto_sdcc.Prelude.{
  ℕ, ◌+◌, ◌*◌, ◌≤◌, ◌<◌, ◌≡◌, ◌≢◌, refl, String, Bool, true, false, not, ◌&&◌, Option, none, some,
  List, [], ◌∷◌, ◌++◌, arith, Error, status, statusf, invalid_argument, internal, Result, ok, err,
  ◌>>=◌, guard, ◌>>◌, is_eof, is_empty, ltb, ◌==◌, if◌then◌else◌, length,
}
use progetto_sdcc.Prelude.Int.{ℤ, pos, exceeds}

-- `uploadpb.UploadMetadata`
pub record UploadMetadata : Type 0 where
  pub gallery_id : String
  pub filename : String
  pub content_type : String
  pub total_size_bytes : ℤ

-- The payload of an `uploadpb.UploadPhotoRequest`; bytes are numbers.
pub data Payload : Type 0 where
  metadata : UploadMetadata → Payload
  chunk_data : List ℕ → Payload
  unknown : Payload

-- What `stream.Recv` yields, call after call: messages, and at last an error, `io.EOF` when the
-- client has closed its side.
pub data Incoming : Type 0 where
  message : Payload → Incoming → Incoming
  ended : Error → Incoming

abbrev pub max_photo_bytes : ℕ
max_photo_bytes = 25 * 1024 * 1024

abbrev pub too_large : Error
too_large = status invalid_argument "upload exceeds max size of %d bytes"

-- The `for` loop, with its variables `meta` and `buf`.
unfoldable pub receive :
    Incoming → Option UploadMetadata → List ℕ → Result (Option UploadMetadata × List ℕ)
receive (ended e) meta buf =
    if is_eof e then ok (meta, buf) else err (statusf internal "recv chunk" e)
receive (message (metadata m) rest) none buf =
    let next = receive rest (some m) buf in
    if exceeds m.total_size_bytes max_photo_bytes
    then err (status invalid_argument "declared size %d exceeds max of %d bytes")
    else next
receive (message (metadata m) rest) (some old) buf =
    err (status invalid_argument "metadata chunk sent more than once")
receive (message (chunk_data bytes) rest) none buf =
    err (status invalid_argument "data chunk received before metadata")
receive (message (chunk_data bytes) rest) (some m) buf =
    let next = receive rest (some m) (buf ++ bytes) in
    if ltb max_photo_bytes (length buf + length bytes) then err too_large else next
receive (message unknown rest) meta buf = err (status invalid_argument "unknown chunk payload type")

-- `meta.TotalSizeBytes > 0 && int64(buf.Len()) != meta.TotalSizeBytes`
abbrev pub size_mismatch : ℤ → ℕ → Bool
size_mismatch (pos n) size = ltb 0 n && not (size == n)
size_mismatch z size = false

-- The checks after the loop.
unfoldable pub check_received : Option UploadMetadata → List ℕ → Result (UploadMetadata × List ℕ)
check_received none buf = err (status invalid_argument "no metadata received")
check_received (some m) buf = do
  guard (not (is_empty m.gallery_id)) (status invalid_argument "gallery_id is required")
  guard (not (length buf == 0)) (status invalid_argument "no image data received")
  guard (not (size_mismatch m.total_size_bytes (length buf)))
      (status invalid_argument "declared size %d does not match received size %d")
  ok (m, buf)

unfoldable pub receive_photo : Incoming → Result (UploadMetadata × List ℕ)
receive_photo stream = do (meta, buf) ← receive stream none []; check_received meta buf
