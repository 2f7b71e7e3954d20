-- ===== src/Programs.antt =====
-- cmd/user, cmd/gallery, cmd/upload and cmd/notification: how a service is started. A log.Fatal is an
-- error; what remains is the server that the program then serves with. The environment is what
-- os.Getenv returns after godotenv.Load. What a program opens is a resource.
pub mod Storage
pub mod Gateway
pub mod Secrets
mod Tests
use text.Mathlib.Text.{◌==◌ as str_eq}
use progetto_sdcc.Prelude.{
  ℕ, String, ◌<>◌, Bool, true, false, not, ◌||◌, Option, none, some, List, [], ◌∷◌, Error, plain,
  wrapped, Result, ok, err, is_empty, if◌then◌else◌,
}
use progetto_sdcc.Gallery.Events.{binding_key}
use progetto_sdcc.Prelude.Action.{Action, and_then, ◌>>=◌, ◌>>◌, pure, lift, or_fail, require}

abbrev pub Environment : Type 0
Environment = String → String

-- `storage.Config`
pub record StorageConfig : Type 0 where
  pub endpoint : String
  pub access_key : String
  pub secret_key : String
  pub bucket : String
  pub use_ssl : Bool

pub data Resource : Type 0 where
  -- `net.Listen("tcp", address)`
  listener : (address : String) → Resource
  -- `gorm.Open` of a data source, `AutoMigrate` of models and `DB()`
  database : (source : String) → Resource
  migration : (models : List String) → Resource
  sql_database : Resource
  -- `storage.NewStorage`, `events.NewPublisher` and `command.NewRabbitMQPublisher`
  object_storage : StorageConfig → Resource
  photo_publisher : Resource
  event_publisher : (url : String) → Resource
  -- `grpc.NewClient` to an address, with the secret of `auth.ServiceCredentials` if it has them
  connection : (address : String) (secret : Option String) → Resource
  -- `RegisterUserServiceHandler` and `RegisterGalleryServiceHandler`
  rest_handlers : (service : String) → Resource
  -- `amqp.Dial`, `Channel`, `ExchangeDeclare`, `QueueDeclare`, `QueueBind`, `Qos` and `Consume`
  broker : (url : String) → Resource
  channel : Resource
  exchange : (name : String) → Resource
  queue : (name : String) → Resource
  binding : (queue : String) (key : String) (exchange : String) → Resource
  prefetch : (count : ℕ) → Resource
  deliveries : (queue : String) → Resource
  -- `redis.NewClient`, and `go broadcaster.Run` and `go consumer.Consume`, which cannot fail
  redis : (address : String) → Resource
  broadcasting : Resource
  consuming : Resource

-- What can be opened. `World` is everything outside the program.
pub record Host : Type 1 where
  pub World : Type 0
  pub acquire : Resource → World → Result (Unit {0}) × World

-- A gRPC server: where it listens, the key that its interceptors check tokens with, and the key that
-- the calls of other services are signed with.
pub record GrpcServer : Type 0 where
  pub address : String
  pub secret : String
  pub signs_with : Option String

-- What the notification service opens for its consumer, with the texts for the failures: secret, address
-- of the gallery service and URL.
abbrev pub consumer_resources : String → String → String → List (String × Resource)
consumer_resources secret address url =
    ("Failed to dial Gallery Service", connection address (some secret))
    ∷ ("Failed to connect to RabbitMQ", broker url)
    ∷ ("Failed to open RabbitMQ channel", channel)
    ∷ ("Failed to declare exchange", exchange "gallery.events")
    ∷ ("Failed to declare queue", queue "notification.events")
    ∷ ("Failed to bind queue", binding "notification.events" binding_key "gallery.events")
    ∷ ("Failed to set QoS", prefetch 10)
    ∷ ("Failed to register RabbitMQ consumer", deliveries "notification.events")
    ∷ []

pub data Program : Type 0 where
  user_service gallery_service upload_service notification_service : Program

module _ (env : Environment) where
  -- `fmt.Sprintf` of the three NewDB, with the names of the variables for the database and the port.
  abbrev pub data_source : String → String → String
  data_source name port =
      "host="
      <> env "DB_HOST"
      <> " user="
      <> env "DB_USER"
      <> " password="
      <> env "DB_PASSWORD"
      <> " dbname="
      <> env name
      <> " port="
      <> env port
      <> " sslmode=disable TimeZone=UTC"

  -- `upload.Config`, without the fields that no code reads.
  pub record UploadConfig : Type 0 where
    pub grpc_port : String
    pub storage : StorageConfig
    pub gallery_address : String

  unfoldable pub load : Result UploadConfig
  load =
      let config : UploadConfig = record {
        grpc_port = env "UPLOAD_GRPC_PORT";
        storage = record {
          endpoint = env "MINIO_ENDPOINT";
          access_key = env "MINIO_ACCESS_KEY";
          secret_key = env "MINIO_SECRET_KEY";
          bucket = env "MINIO_BUCKET";
          use_ssl = str_eq (env "MINIO_USE_SSL") "true";
        };
        gallery_address = env "GALLERY_SERVICE_ADDRESS";
      } in
      if is_empty config.storage.access_key || is_empty config.storage.secret_key
      then err (plain "MINIO_ACCESS_KEY and MINIO_SECRET_KEY must be set")
      else ok config

  module _ (host : Host) where
    open host use {World, acquire}

    -- `v := os.Getenv(name); if v == "" { log.Fatalln(...) }`
    abbrev pub required : String → Action World String
    required name = do
      require (not (is_empty (env name))) (plain (name <> " environment variable is required"))
      pure (env name)

    -- `if err != nil { log.Fatalln(text, err) }`
    abbrev pub must : String → Resource → Action World (Unit {0})
    must text r = or_fail (wrapped text) (acquire r)

    -- One after the other, with the texts for their failures.
    unfoldable pub must_all : List (String × Resource) → Action World (Unit {0})
    must_all [] = pure tt
    must_all ((text, r) ∷ rs) = do must text r; must_all rs

    -- What cannot fail.
    abbrev pub started : Resource → Action World (Unit {0})
    started r w = (ok tt, (acquire r w).1)

    -- NewDB of internal/user/repository, internal/gallery and internal/upload.
    unfoldable pub new_db : String → String → List String → Action World (Unit {0})
    new_db name port models = do
      or_fail (wrapped "connect to db") (acquire (database (data_source name port)))
      or_fail (wrapped "migrate") (acquire (migration models))

    unfoldable pub user_program : Action World GrpcServer
    unfolding new_db
    user_program = do
      secret ← required "JWT_SECRET"
      must "Failed to listen" (listener (":" <> env "USER_GRPC_PORT"))
      or_fail (wrapped "Failed to connect to database")
          (new_db "DB_NAME_USER" "DB_PORT_USER" ("User" ∷ []))
      pure (record { address = ":" <> env "USER_GRPC_PORT"; secret = secret; signs_with = none })

    unfoldable pub gallery_program : Action World GrpcServer
    unfolding new_db
    gallery_program = do
      secret ← required "JWT_SECRET"
      must "Failed to listen" (listener (":" <> env "GALLERY_GRPC_PORT"))
      or_fail (wrapped "Failed to connect to database")
          (new_db "DB_NAME_GALLERY" "DB_PORT_GALLERY" ("Gallery" ∷ "Member" ∷ []))
      must "Failed to get underlying sql.DB" sql_database
      must "Failed to connect to RabbitMQ" (event_publisher (env "RABBITMQ_URL"))
      pure (record { address = ":" <> env "GALLERY_GRPC_PORT"; secret = secret; signs_with = none })

    unfoldable pub upload_program : Action World GrpcServer
    unfolding new_db load
    upload_program = do
      secret ← required "JWT_SECRET"
      cfg ← or_fail (wrapped "Failed to load config") (lift load)
      must "Failed to connect to MinIO" (object_storage cfg.storage)
      must "Failed to create RabbitMQ publisher" photo_publisher
      must "Failed to dial Gallery Service" (connection cfg.gallery_address (some secret))
      or_fail (wrapped "Failed to connect to database")
          (new_db "DB_NAME_UPLOAD" "DB_PORT_UPLOAD" ("Record" ∷ []))
      must "Failed to get underlying sql.DB" sql_database
      must "Failed to listen" (listener (":" <> cfg.grpc_port))
      pure (record { address = ":" <> cfg.grpc_port; secret = secret; signs_with = some secret })

    unfoldable pub notification_program : Action World GrpcServer
    notification_program = do
      secret ← required "JWT_SECRET"
      port ← required "NOTIFICATION_GRPC_PORT"
      address ← required "GALLERY_SERVICE_ADDRESS"
      redis_address ← required "REDIS_ADDR"
      started (redis redis_address)
      started broadcasting
      url ← required "RABBITMQ_URL"
      must_all (consumer_resources secret address url)
      started consuming
      must "Failed to listen" (listener (":" <> port))
      pure (record { address = ":" <> port; secret = secret; signs_with = some secret })

    -- The services.
    unfoldable pub start : Program → Action World GrpcServer
    start user_service = user_program
    start gallery_service = gallery_program
    start upload_service = upload_program
    start notification_service = notification_program
