-- ===== src/Gateway/Uploading.antt =====
-- internal/handlers/upload.go: `UploadPhoto`, with a stream whose calls may fail. The stream is a
-- parameter.
pub mod Answers
pub mod Success
mod Tests
use progetto_sdcc.Prelude.{
  ℕ, String, Option, none, some, List, [], ◌∷◌, Error, Result, ok, err, is_eof, is_empty,
  if◌then◌else◌,
}
use progetto_sdcc.Upload.Stream.{Payload, metadata, chunk_data}
use progetto_sdcc.Gateway.{Reads, more, finished, UploadForm, is_end}
use progetto_sdcc.Gateway.Http.{
  Web, Response, photo_id, status_ok, bad_request, internal_server_error, respond_with_grpc_error,
}

pub record UploadClient : Type 1 where
  pub World : Type 0
  -- `UploadServiceClient.UploadPhoto` opens the stream; then its `Send` and `CloseAndRecv`, with the
  -- identifier in the answer
  pub open_stream : World → Result (Unit {0}) × World
  pub send : Payload → World → Result (Unit {0}) × World
  pub close_and_recv : World → Result String × World

module _ (web : Web) (client : UploadClient) where
  open client use {World}

  abbrev Handler : Type 0
  Handler = World → Response × World

  abbrev closed_early : Result String × World → Response × World
  closed_early (err e, w) = (respond_with_grpc_error web e, w)
  closed_early (ok id, w) = (internal_server_error "upload stream closed unexpectedly", w)

  -- `respondFromStreamSendError`
  unfoldable pub respond_from_stream_send_error : Error → Handler
  respond_from_stream_send_error e w =
      if is_eof e
      then closed_early (client.close_and_recv w)
      else (respond_with_grpc_error web e, w)

  abbrev pub after_send : Result (Unit {0}) × World → Handler → Response × World
  after_send (ok u, w) rest = rest w
  after_send (err e, w) rest = respond_from_stream_send_error e w

  -- A read of no bytes sends nothing.
  abbrev pub send_bytes : List ℕ → World → Result (Unit {0}) × World
  send_bytes [] w = (ok tt, w)
  send_bytes (b ∷ bs) w = client.send (chunk_data (b ∷ bs)) w

  abbrev pub answered : Result String × World → Response × World
  answered (ok id, w) = (record { code = status_ok; body = photo_id id }, w)
  answered (err e, w) = (respond_with_grpc_error web e, w)

  -- After the last read.
  abbrev pub close_stream : Error → Handler
  close_stream e w =
      if is_end e
      then answered (client.close_and_recv w)
      else (internal_server_error (web.text e), w)

  -- The loop over the chunks, and what follows it.
  unfoldable pub send_file : Reads → Handler
  send_file (more bytes rest) w = let next = send_file rest in after_send (send_bytes bytes w) next
  send_file (finished bytes e) w = after_send (send_bytes bytes w) (close_stream e)

  abbrev pub opened : UploadForm → Result (Unit {0}) × World → Response × World
  opened form (err e, w) = (respond_with_grpc_error web e, w)
  opened form (ok u, w) =
      after_send
        (client.send
          (metadata (record {
            gallery_id = form.gallery_id;
            filename = form.filename;
            content_type = form.content_type;
            total_size_bytes = form.size;
          }))
          w)
        (send_file form.file)

  unfoldable pub upload_handler : Option UploadForm → Handler
  upload_handler none w = (bad_request "photo is required", w)
  upload_handler (some form) w =
      if is_empty form.gallery_id
      then (bad_request "galleryId is required", w)
      else opened form (client.open_stream w)
