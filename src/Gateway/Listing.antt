-- ===== src/Gateway/Listing.antt =====
-- internal/handlers/upload.go: `ListUploads`. The call of the upload service and the formatting of
-- times are parameters.
pub mod FirstPage
mod Tests
use progetto_sdcc.Prelude.{
  ℕ, String, ◌<>◌, List, map, Error, Result, ok, err, is_empty, if◌then◌else◌,
}
use progetto_sdcc.Prelude.Int.{pos}
use progetto_sdcc.Upload.Listing.{ListUploadsRequest, ListUploadsResponse, UploadSummary}
use progetto_sdcc.Gateway.Http.{
  Web, Response, UploadSummaryDto, uploads, status_ok, bad_request, respond_with_grpc_error,
}

-- `UploadHandler`, without its client, and the format of a time.
pub record UploadHandler : Type 0 where
  pub minio_public_url : String
  pub minio_bucket : String
  pub format_time : ℕ → String

abbrev pub gateway_page_size : ℕ
gateway_page_size = 100

abbrev pub dto : UploadHandler → UploadSummary → UploadSummaryDto
dto h u = record {
  photo_id = u.photo_id;
  gallery_id = u.gallery_id;
  uploader_user_id = u.uploader_user_id;
  size_bytes = u.size_bytes;
  uploaded_at = h.format_time u.uploaded_at;
  url = h.minio_public_url <> ("/" <> (h.minio_bucket <> ("/" <> u.storage_key)));
}

module _ (web : Web) (h : UploadHandler)
    (call : ListUploadsRequest → Result ListUploadsResponse) where
  abbrev listed : Result ListUploadsResponse → Response
  listed (err e) = respond_with_grpc_error web e
  listed (ok r) = record {
    code = status_ok;
    body = uploads (map (dto h) r.uploads) r.next_page_token;
  }

  -- The request for the gallery in the path.
  unfoldable pub list_uploads_handler : String → Response
  list_uploads_handler gallery =
      if is_empty gallery
      then bad_request "galleryId is required"
      else listed (
          call
            (record { gallery_id = gallery; page_size = pos gateway_page_size; page_token = "" }))
