-- ===== src/Gateway/Http.antt =====
-- internal/handlers: the responses of the gateway. What gin, the gRPC status package and the gateway
-- runtime do is a parameter.
use progetto_sdcc.Prelude.{ℕ, String, Option, none, some, List, Error, Code}

pub record Web : Type 0 where
  -- `status.FromError`: the code and the text of a gRPC error
  pub from_error : Error → Option (Code × String)
  -- `runtime.HTTPStatusFromCode`
  pub http_status : Code → ℕ
  -- `err.Error()`
  pub text : Error → String

-- `uploadSummaryDTO`
pub record UploadSummaryDto : Type 0 where
  pub photo_id : String
  pub gallery_id : String
  pub uploader_user_id : String
  pub size_bytes : ℕ
  pub uploaded_at : String
  pub url : String

pub data Body : Type 0 where
  error : String → Body
  photo_id : String → Body
  uploads : List UploadSummaryDto → (next_page_token : String) → Body

pub record Response : Type 0 where
  pub code : ℕ
  pub body : Body

abbrev pub status_ok : ℕ
status_ok = 200

abbrev pub bad_request : String → Response
bad_request text = record { code = 400; body = error text }

abbrev pub internal_server_error : String → Response
internal_server_error text = record { code = 500; body = error text }

module _ (web : Web) where
  abbrev by_status : Error → Option (Code × String) → Response
  by_status e none = internal_server_error (web.text e)
  by_status e (some (code, text)) = record { code = web.http_status code; body = error text }

  -- `respondWithGRPCError`
  unfoldable pub respond_with_grpc_error : Error → Response
  respond_with_grpc_error e = by_status e (web.from_error e)
