-- ===== src/Upload/Photo.antt =====
-- `Server.uploadPhoto` and `Server.isMember` in internal/upload/api/grpc.go. The services that the
-- server calls are a parameter: the gallery service's client, the object storage, the repository,
-- the publisher, the client's stream, the clock and the UUID library.
pub mod Admission
pub mod Trace
pub mod Identifiers
pub mod UnknownGallery
pub mod UnknownGalleryTests
use progetto_sdcc.Prelude.{
  ℕ, String, ◌<>◌, Bool, true, false, not, Option, none, some, List, [], Error, status, statusf,
  invalid_argument, internal, unavailable, Result, ok, err, is_circuit_open, is_empty,
  if◌then◌else◌, length,
}
use progetto_sdcc.Prelude.Action.{Action, and_then, ◌>>=◌, ◌>>◌, pure, fail, lift, require, or_fail}
use progetto_sdcc.Auth.{Claims, from_context}
use progetto_sdcc.CircuitBreaker.{CircuitBreaker, call}
use progetto_sdcc.Upload.Record.{
  Record, UploadEvent, UploadPhotoResponse, GalleryStatus, status_unspecified, status_open,
  status_closed, IsMemberResponse,
}
use progetto_sdcc.Upload.Stream.{UploadMetadata, Incoming, receive_photo}

pub record Services : Type 1 where
  -- What the other services, the clock and the client's stream are like at a moment.
  pub World : Type 0
  -- `GalleryService.IsMember` and `GalleryService.ListMembers`, by the texts of the identifiers.
  pub ask_member : String → String → World → Result IsMemberResponse × World
  pub list_members : String → World → Result (List String) × World
  -- `storage.Uploader.Upload`: object key, content type, data; the object's URL.
  pub put_object : String → String → List ℕ → World → Result String × World
  -- `upload.Repository.Save`
  pub save : Record → World → Result (Unit {0}) × World
  -- `events.Notifier.PublishPhoto`, which returns nothing.
  pub publish_photo : UploadEvent → World → World
  -- `stream.SendAndClose`
  pub send_and_close : UploadPhotoResponse → World → Result (Unit {0}) × World
  -- `time.Now` and `uuid.New`
  pub now : World → ℕ
  pub new_uuid : World → ℕ × World
  -- `uuid.Parse`: a value, and whether the error is nil; `UUID.String`.
  pub parse_uuid : String → ℕ × Bool
  pub uuid_string : ℕ → String

-- The fields `minioPublicURL` and `minioBucket` of the server.
pub record Settings : Type 0 where
  pub minio_public_url : String
  pub minio_bucket : String

abbrev is_closed : GalleryStatus → Bool
is_closed status_closed = true
is_closed _ = false

-- `resp.GetIsMember()` and `resp.GetGalleryStatus()`, of a nil response too.
abbrev answered : Option IsMemberResponse → Bool × GalleryStatus
answered none = (false, status_unspecified)
answered (some r) = (r.is_member, r.gallery_status)

abbrev member_error : Error → Error
member_error e =
    if is_circuit_open e
    then status unavailable "gallery service unavailable (circuit breaker open)"
    else statusf internal "checking membership" e

unfoldable pub content_type_of : UploadMetadata → String
content_type_of m = if is_empty m.content_type then "application/octet-stream" else m.content_type

abbrev members_or_none : Result (List String) → List String
members_or_none (ok ids) = ids
members_or_none (err e) = []

module _ (services : Services) (settings : Settings) where
  open services use {World}

  -- What a request changes: the breaker of the gallery service, and the world.
  pub record Server : Type 0 where
    pub gallery_breaker : CircuitBreaker
    pub world : World

  abbrev Asked : Type 0
  Asked = World × Option IsMemberResponse

  abbrev asked : Result IsMemberResponse × World → Option Error × Asked
  asked (ok r, w) = (none, (w, some r))
  asked (err e, w) = (some e, (w, none))

  -- The function that the breaker protects; it leaves its response in the variable `resp`.
  unfoldable pub ask : String → String → Asked → Option Error × Asked
  ask gallery user s = asked (services.ask_member gallery user s.0)

  abbrev membership :
      record { error : Option Error; breaker : CircuitBreaker; state : Asked }
      → Result (Bool × GalleryStatus) × Server
  membership r = elim r.error [
    | none ↦ (ok (answered r.state.1), record { gallery_breaker = r.breaker; world = r.state.0 })
    | some e ↦ (err (member_error e), record { gallery_breaker = r.breaker; world = r.state.0 })
  ]

  -- `isMember`. The breaker reads the clock before and after the request.
  unfoldable pub is_member : ℕ → ℕ → Action Server (Bool × GalleryStatus)
  is_member gallery user s =
      let fn = ask (services.uuid_string gallery) (services.uuid_string user) in
      membership (
        call s.gallery_breaker (services.now s.world) (services.now (fn (s.world, none)).1.0) fn
          (s.world, none))

  -- An operation of the world, as an action of the server.
  abbrev on_world : {A : Type 0} → A × World → Server → A × Server
  on_world (a, w) s = (a, record s { world = w })

  abbrev clock : Action Server ℕ
  clock s = (ok (services.now s.world), s)

  abbrev fresh_uuid : Action Server ℕ
  fresh_uuid s =
      (ok (services.new_uuid s.world).0, record s { world = (services.new_uuid s.world).1 })

  abbrev store_object : String → String → List ℕ → Action Server String
  store_object key content_type bytes s =
      on_world (services.put_object key content_type bytes s.world) s

  -- The error of `Save` is logged and dropped.
  abbrev save_record : Record → Action Server (Unit {0})
  save_record rec s = (ok tt, record s { world = (services.save rec s.world).1 })

  -- `resolveMembers`: no members where the gallery service fails.
  unfoldable pub resolve_members : ℕ → Action Server (List String)
  resolve_members gallery s =
      let r = services.list_members (services.uuid_string gallery) s.world in
      (ok (members_or_none r.0), record s { world = r.1 })

  abbrev publish : UploadEvent → Action Server (Unit {0})
  publish event s = (ok tt, record s { world = services.publish_photo event s.world })

  abbrev answer : UploadPhotoResponse → Action Server (Unit {0})
  answer response s = on_world (services.send_and_close response s.world) s

  unfoldable pub object_key : ℕ → ℕ → String → String
  object_key gallery photo filename =
      if is_empty filename
      then "galleries/" <> services.uuid_string gallery <> "/" <> services.uuid_string photo
      else "galleries/"
        <> services.uuid_string gallery
        <> "/"
        <> services.uuid_string photo
        <> "_"
        <> filename

  unfoldable pub public_url : String → String → String
  public_url stored key =
      if is_empty settings.minio_public_url
      then stored
      else settings.minio_public_url <> "/" <> settings.minio_bucket <> "/" <> key

  -- An upload that may be stored.
  pub record Accepted : Type 0 where
    pub meta : UploadMetadata
    pub bytes : List ℕ
    pub gallery : ℕ
    pub uploader : ℕ

  -- The first half of `uploadPhoto`. The error of `uuid.Parse` is thrown away, and the test after
  -- it reads the error of `uploaderFromMeta`, which is nil there: no identifier is refused.
  unfoldable pub admit_upload : Option Claims → Incoming → Action Server Accepted
  admit_upload claims stream = do
    caller ← lift (from_context claims)
    (meta, bytes) ← lift (receive_photo stream)
    let gallery = (services.parse_uuid meta.gallery_id).0
    (membership, gallery_status) ← is_member gallery caller.user_id
    require membership (status invalid_argument "user is not a member of the gallery")
    require (not (is_closed gallery_status)) (status invalid_argument "gallery is closed")
    pure (record { meta = meta; bytes = bytes; gallery = gallery; uploader = caller.user_id })

  abbrev record_of : Accepted → ℕ → String → ℕ → Record
  record_of a photo key now = record {
    photo_id = photo;
    gallery_id = a.gallery;
    uploader_id = a.uploader;
    filename = a.meta.filename;
    content_type = content_type_of a.meta;
    storage_key = key;
    size_bytes = length a.bytes;
    error_message = "";
    uploaded_at = now;
    updated_at = now;
  }

  abbrev event_of : Accepted → ℕ → String → String → List String → ℕ → UploadEvent
  event_of a photo key url members now = record {
    photo_id = photo;
    gallery_id = a.gallery;
    uploader_id = a.uploader;
    gallery_name = "";
    storage_key = key;
    photo_url = url;
    content_type = content_type_of a.meta;
    size_bytes = length a.bytes;
    member_ids = members;
    uploaded_at = now;
  }

  abbrev response_of : Accepted → ℕ → String → String → UploadPhotoResponse
  response_of a photo key url = record {
    photo_id = services.uuid_string photo;
    gallery_id = services.uuid_string a.gallery;
    storage_key = key;
    size_bytes = length a.bytes;
    url = url;
  }

  -- The second half of `uploadPhoto`.
  unfoldable pub store_upload : Accepted → Action Server (Unit {0})
  store_upload a = do
    photo ← fresh_uuid
    let key = object_key a.gallery photo a.meta.filename
    stored ←
        or_fail (statusf internal "store photo") (store_object key (content_type_of a.meta) a.bytes)
    let url = public_url stored key
    now ← clock
    save_record (record_of a photo key now)
    members ← resolve_members a.gallery
    later ← clock
    publish (event_of a photo key url members later)
    answer (response_of a photo key url)

  unfoldable pub upload_photo : Option Claims → Incoming → Action Server (Unit {0})
  upload_photo claims stream = do a ← admit_upload claims stream; store_upload a
