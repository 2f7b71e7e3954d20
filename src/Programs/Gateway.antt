-- ===== src/Programs/Gateway.antt =====
-- cmd/gateway/main.go: the start of the gateway, its routes and its CORS headers.
use text.Mathlib.Text.{◌==◌ as str_eq}
use progetto_sdcc.Prelude.{ℕ, String, ◌<>◌, none, List, [], ◌∷◌, ◌++◌, is_empty, if◌then◌else◌}
use progetto_sdcc.Prelude.Action.{Action, ◌>>=◌, ◌>>◌, pure}
use progetto_sdcc.Programs.{Environment, Host, connection, rest_handlers, required, must}

-- An answer: status, headers and body.
pub record Answer : Type 0 where
  pub status_code : ℕ
  pub headers : List (String × String)
  pub body : String

abbrev pub cors_headers : String → List (String × String)
cors_headers origin =
    ("Access-Control-Allow-Origin", origin)
    ∷ ("Access-Control-Allow-Methods", "GET, POST, PUT, DELETE, OPTIONS")
    ∷ ("Access-Control-Allow-Headers", "Content-Type, Authorization")
    ∷ []

-- `corsMiddleware`, for a request's method and the answer of the next handler.
unfoldable pub cors_middleware : String → String → Answer → Answer
cors_middleware origin method next =
    if str_eq method "OPTIONS"
    then record { status_code = 204; headers = cors_headers origin; body = "" }
    else record next { headers = cors_headers origin ++ next.headers }

-- What the gateway listens with: its address, the addresses that it calls, where its photos are
-- found, and the origin that it allows.
pub record GatewayServer : Type 0 where
  pub address : String
  pub upload_address : String
  pub notification_address : String
  pub user_address : String
  pub gallery_address : String
  pub public_url : String
  pub bucket : String
  pub origin : String

module _ (env : Environment) (host : Host) where
  open host use {World}

  abbrev port_or_default : String → String
  port_or_default port = if is_empty port then "8080" else port

  unfoldable pub gateway_program : Action World GatewayServer
  gateway_program = do
    upload_address ← required env host "UPLOAD_SERVICE_ADDRESS"
    public_url ← required env host "MINIO_PUBLIC_URL"
    bucket ← required env host "MINIO_BUCKET"
    notification_address ← required env host "NOTIFICATION_SERVICE_ADDRESS"
    user_address ← required env host "USER_SERVICE_ADDRESS"
    gallery_address ← required env host "GALLERY_SERVICE_ADDRESS"
    must env host "failed to connect to UploadService"
        (connection ("dns:///" <> upload_address) none)
    must env host "failed to connect to NotificationService"
        (connection ("dns:///" <> notification_address) none)
    must env host "failed to connect to UserService" (connection user_address none)
    must env host "failed to connect to GalleryService" (connection gallery_address none)
    must env host "failed to register UserService gateway" (rest_handlers "User")
    must env host "failed to register GalleryService gateway" (rest_handlers "Gallery")
    pure (record {
      address = ":" <> port_or_default (env "HTTP_PORT");
      upload_address = upload_address;
      notification_address = notification_address;
      user_address = user_address;
      gallery_address = gallery_address;
      public_url = public_url;
      bucket = bucket;
      origin = env "FRONTEND_ORIGIN";
    })
