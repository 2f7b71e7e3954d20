-- ===== src/Upload/Record.antt =====
-- The data of the upload service: internal/upload/models/record.go, the event of
-- internal/upload/events/publisher.go and the messages of internal/upload/api/grpc.go.
use progetto_sdcc.Prelude.{ℕ, String, Bool, List}

pub record Record : Type 0 where
  pub photo_id : ℕ
  pub gallery_id : ℕ
  pub uploader_id : ℕ
  pub filename : String
  pub content_type : String
  pub storage_key : String
  pub size_bytes : ℕ
  pub error_message : String
  pub uploaded_at : ℕ
  pub updated_at : ℕ

pub record UploadEvent : Type 0 where
  pub photo_id : ℕ
  pub gallery_id : ℕ
  pub uploader_id : ℕ
  pub gallery_name : String
  pub storage_key : String
  pub photo_url : String
  pub content_type : String
  pub size_bytes : ℕ
  pub member_ids : List String
  pub uploaded_at : ℕ

-- `uploadpb.UploadPhotoResponse`, without its time stamp.
pub record UploadPhotoResponse : Type 0 where
  pub photo_id : String
  pub gallery_id : String
  pub storage_key : String
  pub size_bytes : ℕ
  pub url : String

-- `gallerypb.GalleryStatus` and `gallerypb.IsMemberResponse`
pub data GalleryStatus : Type 0 where
  status_unspecified status_open status_closed : GalleryStatus

pub record IsMemberResponse : Type 0 where
  pub is_member : Bool
  pub gallery_status : GalleryStatus
