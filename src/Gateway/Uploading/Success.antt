-- ===== src/Gateway/Uploading/Success.antt =====
-- When the gateway reports a success.
use progetto_sdcc.Prelude.{
  ◌≡◌, ◌≢◌, refl, String, Option, none, some, arith, Error, Code, Result, ok, err, is_eof, is_empty,
  inl, inr, Bool-cases, Option-cases, Result-cases,
}
use progetto_sdcc.Upload.Stream.{metadata}
use progetto_sdcc.Gateway.{Reads, more, finished, UploadForm, is_end}
use progetto_sdcc.Gateway.Http.{Web, Response, photo_id, status_ok, respond_with_grpc_error}
use progetto_sdcc.Gateway.Uploading.{
  UploadClient, respond_from_stream_send_error, after_send, send_bytes, close_stream, send_file,
  upload_handler,
}

-- What the gateway runtime promises: an error code is not mapped to the status OK.
abbrev pub ErrorsFail : Web → Type 0
ErrorsFail web = (code : Code) → web.http_status code ≢ status_ok

module _ (web : Web) (client : UploadClient) (errors : ErrorsFail web) where
  -- The last call closed the stream and got an identifier, or the status is not OK.
  pub data Answered (r : Response × client.World) : Type 0 where
    success :
        (w : client.World) (id : String)
        → (client.close_and_recv w).0 ≡ ok id
        → r ≡ (record { code = status_ok; body = photo_id id }, (client.close_and_recv w).1)
        → Answered r
    failure : r.0.code ≢ status_ok → Answered r

  respond_with_grpc_error-fails : (e : Error) → (respond_with_grpc_error web e).code ≢ status_ok
  unfolding respond_with_grpc_error
  respond_with_grpc_error-fails e = elim (Option-cases (web.from_error e)) [
    | inl h ↦ rw h (λ q. ground arith)
    | inr ((code, text), h) ↦ rw h (errors code)
  ]

  respond_from_stream_send_error-fails :
      (e : Error) (w : client.World)
      → (respond_from_stream_send_error web client e w).0.code ≢ status_ok
  unfolding respond_from_stream_send_error
  respond_from_stream_send_error-fails e w = elim (Bool-cases (is_eof e)) [
    | inr h ↦ rw h (respond_with_grpc_error-fails e)
    | inl h ↦ elim (Result-cases (client.close_and_recv w).0) [
      | inl (id, q) ↦ rw (h, q) (λ x. ground arith)
      | inr (x, q) ↦ rw (h, q) (respond_with_grpc_error-fails x)
    ]
  ]

  after_send-Answered :
      (x : Result (Unit {0}) × client.World) (rest : client.World → Response × client.World)
      → ((w : client.World) → Answered (rest w))
      → Answered (after_send web client x rest)
  after_send-Answered (ok u, w) rest h = h w
  after_send-Answered (err e, w) rest h = failure (respond_from_stream_send_error-fails e w)

  close_stream-Answered : (e : Error) (w : client.World) → Answered (close_stream web client e w)
  close_stream-Answered e w = elim (Bool-cases (is_end e)) [
    | inr h ↦ rw h (failure (λ x. ground arith))
    | inl h ↦ elim (Result-cases (client.close_and_recv w).0) [
      | inl (id, q) ↦ rw (h, q) (success w id q refl)
      | inr (x, q) ↦ rw (h, q) (failure (respond_with_grpc_error-fails x))
    ]
  ]

  send_file-Answered : (f : Reads) (w : client.World) → Answered (send_file web client f w)
  unfolding send_file
  send_file-Answered (more bytes rest) w =
      after_send-Answered (send_bytes web client bytes w) (send_file web client rest)
        (send_file-Answered rest)
  send_file-Answered (finished bytes e) w =
      after_send-Answered (send_bytes web client bytes w) (close_stream web client e)
        (close_stream-Answered e)

  -- Whatever the calls of the stream return and however the file is read, the gateway answers an
  -- upload with the status OK only if its last call closed the stream and the service's answer to
  -- that had an identifier, and the response has this identifier; else the status is another one.
  pub upload_handler-Answered :
      (form : Option UploadForm) (w : client.World) → Answered (upload_handler web client form w)
  unfolding upload_handler
  upload_handler-Answered none w = failure (λ x. ground arith)
  upload_handler-Answered (some form) w = elim (Bool-cases (is_empty form.gallery_id)) [
    | inl h ↦ rw h (failure (λ x. ground arith))
    | inr h ↦ elim (Result-cases (client.open_stream w).0) [
      | inr (e, q) ↦ rw (h, q) (failure (respond_with_grpc_error-fails e))
      | inl (u, q) ↦
          rw (h, q)
            (after_send-Answered (client.send (metadata _) (client.open_stream w).1)
              (send_file web client form.file) (send_file-Answered form.file))
    ]
  ]
