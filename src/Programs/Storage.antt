-- ===== src/Programs/Storage.antt =====
-- internal/upload/storage/minio.go: NewStorage and Upload, over the calls of the MinIO client.
use progetto_sdcc.Prelude.{ℕ, String, ◌<>◌, Bool, true, false, List, wrapped, Result}
use progetto_sdcc.Prelude.Action.{Action, ◌>>=◌, ◌>>◌, pure, lift, or_fail}
use progetto_sdcc.Programs.{StorageConfig}

pub record Minio : Type 1 where
  pub World : Type 0
  pub Handle : Type 0
  -- `minio.New`, with endpoint, keys and whether to use TLS
  pub new : String → String → String → Bool → Result Handle
  pub bucket_exists : Handle → String → Action World Bool
  pub make_bucket : Handle → String → Action World (Unit {0})
  pub set_bucket_policy : Handle → String → String → Action World (Unit {0})
  -- `PutObject`, with bucket, key, bytes and content type
  pub put_object : Handle → String → String → List ℕ → String → Action World (Unit {0})
  -- `client.EndpointURL().String()`
  pub endpoint_url : Handle → String

-- `fmt.Sprintf(publicReadPolicy, bucket)`, without the line breaks.
abbrev public_read_policy : String → String
public_read_policy bucket =
    "{\"Version\": \"2012-10-17\", \"Statement\": [{\"Effect\": \"Allow\", \"Principal\": {\"AWS\": [\"*\"]}, \"Action\": [\"s3:GetObject\"], \"Resource\": [\"arn:aws:s3:::"
    <> bucket <> "/*\"]}]}"

module _ (minio : Minio) where
  open minio use {World, Handle}

  -- `Storage`
  pub record Storage : Type 0 where
    pub client : Handle
    pub bucket : String

  abbrev made : Handle → String → Bool → Action World (Unit {0})
  made client bucket true = pure tt
  made client bucket false =
      or_fail (wrapped ("creating bucket " <> bucket)) (minio.make_bucket client bucket)

  unfoldable pub new_storage : StorageConfig → Action World Storage
  new_storage cfg = do
    client ←
        or_fail (wrapped "creating minio client")
          (lift (minio.new cfg.endpoint cfg.access_key cfg.secret_key cfg.use_ssl))
    exists ←
        or_fail (wrapped ("checking bucket " <> cfg.bucket)) (minio.bucket_exists client cfg.bucket)
    made client cfg.bucket exists
    or_fail (wrapped "setting bucket policy")
        (minio.set_bucket_policy client cfg.bucket (public_read_policy cfg.bucket))
    pure (record { client = client; bucket = cfg.bucket })

  -- The plain URL of the object.
  unfoldable pub upload : Storage → String → String → List ℕ → Action World String
  upload s key content_type bytes = do
    or_fail (wrapped ("putting object " <> key))
        (minio.put_object s.client s.bucket key bytes content_type)
    pure (minio.endpoint_url s.client <> "/" <> s.bucket <> "/" <> key)
