-- ===== src/Upload/Stream/Accepted.antt =====
-- Which streams the receiving loop accepts, and what it makes of them.
use mathlib.Core.List.{append-nil, append_assoc}
use progetto_sdcc.Prelude.{
  ℕ, ◌+◌, ◌≤◌, ◌<◌, ◌≡◌, ◌↔◌, refl, true, false, Option, none, some, List, [], ◌∷◌, ◌++◌, arith,
  Error, ok, >>=-eq-ok, is_eof, is_empty, length, length-append, ◌∙◌, sym, ap,
}
use progetto_sdcc.Prelude.Int.{exceeds}
use progetto_sdcc.Upload.Stream.{
  UploadMetadata, metadata, chunk_data, unknown, Incoming, message, ended, max_photo_bytes, receive,
  size_mismatch, check_received, receive_photo,
}

-- A client that sends its data in the chunks `cs`, after which `Recv` yields `e`.
abbrev pub sending : List (List ℕ) → Error → Incoming
sending [] e = ended e
sending (c ∷ cs) e = message (chunk_data c) (sending cs e)

abbrev pub concat : List (List ℕ) → List ℕ
concat [] = []
concat (c ∷ cs) = c ++ concat cs

-- The stream is one metadata message, then chunks whose concatenation is `b`, then end of file; and
-- the metadata and the size of `b` pass the checks.
pub record Accepted (s : Incoming) (m : UploadMetadata) (b : List ℕ) : Type 0 where
  pub chunks : List (List ℕ)
  pub last : Error
  pub shape : s ≡ message (metadata m) (sending chunks last)
  pub closed : is_eof last ≡ true
  pub whole : b ≡ concat chunks
  pub named : is_empty m.gallery_id ≡ false
  pub some_data : 0 < length b
  pub fits : length b ≤ max_photo_bytes
  pub declared_fits : exceeds m.total_size_bytes max_photo_bytes ≡ false
  pub declared_right : size_mismatch m.total_size_bytes (length b) ≡ false

-- What the loop has done once it has the metadata.
record Collected (s : Incoming) (m : UploadMetadata) (buf : List ℕ)
    (r : Option UploadMetadata × List ℕ) : Type 0 where
  chunks : List (List ℕ)
  last : Error
  shape : s ≡ sending chunks last
  closed : is_eof last ≡ true
  meta : r.0 ≡ some m
  whole : r.1 ≡ buf ++ concat chunks
  fits : length r.1 ≤ max_photo_bytes

receive-Collected :
    (s : Incoming) (m : UploadMetadata) (buf : List ℕ) (r : Option UploadMetadata × List ℕ)
    → length buf ≤ max_photo_bytes
    → receive s (some m) buf ≡ ok r
    → Collected s m buf r
unfolding receive
receive-Collected (ended e) m buf r h eq = record {
  chunks = [];
  last = e;
  shape = refl;
  closed = ground arith;
  meta = ground arith;
  whole = ground (arith, append-nil buf);
  fits = ground arith;
}
receive-Collected (message (metadata n) rest) m buf r h eq = cc
receive-Collected (message unknown rest) m buf r h eq = cc
receive-Collected (message (chunk_data c) rest) m buf r h eq =
    let below : length buf + length c ≤ max_photo_bytes = ground arith in
    let rest_eq : receive rest (some m) (buf ++ c) ≡ ok r = ground arith in
    let k = receive-Collected rest m (buf ++ c) r (omega (arith, length-append buf c)) rest_eq in
    record {
      chunks = c ∷ k.chunks;
      last = k.last;
      shape = ap (message (chunk_data c)) k.shape;
      closed = k.closed;
      meta = k.meta;
      whole = k.whole ∙ append_assoc buf c (concat k.chunks);
      fits = k.fits;
    }

receive-sending :
    (cs : List (List ℕ)) (e : Error) (m : UploadMetadata) (buf : List ℕ)
    → is_eof e ≡ true
    → length buf + length (concat cs) ≤ max_photo_bytes
    → receive (sending cs e) (some m) buf ≡ ok (some m, buf ++ concat cs)
unfolding receive
receive-sending [] e m buf end h = ground (arith, append-nil buf)
receive-sending (c ∷ cs) e m buf end h = ground (
  arith,
  length-append c (concat cs),
  length-append buf c,
  receive-sending cs e m (buf ++ c),
  append_assoc buf c (concat cs),
)

-- What the checks after the loop establish.
record Checked (n : UploadMetadata) (buf : List ℕ) (m : UploadMetadata) (b : List ℕ) : Type 0 where
  same : n ≡ m
  whole : buf ≡ b
  named : is_empty n.gallery_id ≡ false
  some_data : 0 < length buf
  declared : size_mismatch n.total_size_bytes (length buf) ≡ false

check_received-Checked :
    (n : UploadMetadata) (buf : List ℕ) (m : UploadMetadata) (b : List ℕ)
    → check_received (some n) buf ≡ ok (m, b)
    → Checked n buf m b
unfolding check_received
check_received-Checked n buf m b eq = ground arith

receive_photo_sound :
    (s : Incoming) (m : UploadMetadata) (b : List ℕ) → receive_photo s ≡ ok (m, b) → Accepted s m b
unfolding receive_photo check_received receive
receive_photo_sound (ended e) m b eq = absurd (ground arith)
receive_photo_sound (message unknown rest) m b eq = cc
receive_photo_sound (message (chunk_data c) rest) m b eq = cc
receive_photo_sound (message (metadata n) rest) m b eq =
    let (r, loop, checks) = >>=-eq-ok (receive (message (metadata n) rest) none []) _ eq in
    let small : exceeds n.total_size_bytes max_photo_bytes ≡ false = ground arith in
    let k = receive-Collected rest n [] r (omega arith) (ground arith) in
    let c = check_received-Checked n r.1 m b (rw k.meta at checks) in
    rw (← c.same, ← c.whole)
      record {
        chunks = k.chunks;
        last = k.last;
        shape = ap (message (metadata n)) k.shape;
        closed = k.closed;
        whole = k.whole;
        named = c.named;
        some_data = c.some_data;
        fits = k.fits;
        declared_fits = small;
        declared_right = c.declared;
      }

receive_photo_complete :
    (s : Incoming) (m : UploadMetadata) (b : List ℕ) → Accepted s m b → receive_photo s ≡ ok (m, b)
unfolding receive_photo check_received receive
receive_photo_complete s m b a =
    let size : length b ≡ length (concat a.chunks) = ap length a.whole in
    let loop : receive (sending a.chunks a.last) (some m) [] ≡ ok (some m, b) =
      receive-sending a.chunks a.last m [] a.closed (omega (arith, a.fits))
      ∙ ap (λ (x : List ℕ). ok (some m, x)) (sym a.whole) in
    rw a.shape (ground (arith, loop, a.named, a.some_data, a.declared_fits, a.declared_right))

-- The receiving part of an upload yields the metadata `m` and the data `b` exactly for the streams
-- that are one metadata message, data chunks whose concatenation is `b`, and end of file, where `b`
-- has at least one byte and at most the maximum, the gallery identifier is not empty, and the size
-- that the metadata declares is at most the maximum and, if positive, the size of `b`.
pub receive_photo_iff :
    (s : Incoming) (m : UploadMetadata) (b : List ℕ)
    → (receive_photo s ≡ ok (m, b)) ↔ Accepted s m b
receive_photo_iff s m b = (receive_photo_sound s m b, receive_photo_complete s m b)
