-- ===== src/Auth/Overrides.antt =====
-- `AuthFuncOverride` of internal/upload/api/grpc.go, internal/gallery/api/grpc.go and
-- internal/user/api/grpc.go: which methods may be called without a token.
use text.Mathlib.Text.{◌==◌ as str_eq}
use progetto_sdcc.Prelude.{ℕ, String, Bool, ◌||◌, Result, ok, err, if◌then◌else◌}
use progetto_sdcc.Auth.{Jwt, Context, auth_func}

pub data Service : Type 0 where
  upload_service gallery_service user_service : Service

-- `publicMethods` of each server
abbrev pub upload_public : String → Bool
upload_public method = str_eq method "/proto.UploadService/HealthCheck"

abbrev pub gallery_public : String → Bool
gallery_public method =
    str_eq method "/proto.GalleryService/GetGallery"
    || str_eq method "/proto.GalleryService/ListGalleries"

abbrev pub user_public : String → Bool
user_public method =
    str_eq method "/proto.UserService/Login" || str_eq method "/proto.UserService/Register"

abbrev pub is_public : Service → String → Bool
is_public upload_service = upload_public
is_public gallery_service = gallery_public
is_public user_service = user_public

abbrev best_effort : Context → Result Context → Result Context
best_effort ctx (ok authed) = ok authed
best_effort ctx (err e) = ok ctx

module _ (jwt : Jwt) (secret : String) where
  unfoldable pub upload_override : String → ℕ → Context → Result Context
  upload_override method now ctx =
      if upload_public method then ok ctx else auth_func jwt secret now ctx

  unfoldable pub gallery_override : String → ℕ → Context → Result Context
  gallery_override method now ctx =
      if gallery_public method
      then best_effort ctx (auth_func jwt secret now ctx)
      else auth_func jwt secret now ctx

  unfoldable pub user_override : String → ℕ → Context → Result Context
  user_override method now ctx = if user_public method then ok ctx else auth_func jwt secret now ctx

  abbrev pub auth_func_override : Service → String → ℕ → Context → Result Context
  auth_func_override upload_service = upload_override
  auth_func_override gallery_service = gallery_override
  auth_func_override user_service = user_override
