-- ===== src/Programs/Tests.antt =====
-- A host that opens everything, an environment in which every variable is set, and the tokens of
-- Auth.Sample: the upload service calls the gallery service.
use progetto_sdcc.Prelude.{
  ℕ, ◌≡◌, refl, String, false, some, none, List, [], ok, Result, is_empty, arith,
}
use progetto_sdcc.Auth.{token_ttl, service_role}
use progetto_sdcc.Auth.Tokens.{sign_token, service_auth_interceptor}
use progetto_sdcc.Auth.Overrides as Overrides
use progetto_sdcc.Auth.Overrides.{auth_func_override}
use progetto_sdcc.Auth.Sample.{spell, jwt, jwt_laws}
use progetto_sdcc.Programs.{
  Environment, Host, GrpcServer, upload_service, gallery_service, start, upload_program,
  gallery_program, load, new_db,
}
use progetto_sdcc.Programs.Secrets.{service_call-Accepted}

abbrev env : Environment
env name = "key"

abbrev host : Host
host = record { World = ℕ; acquire = λ r w. (ok tt, w) }

abbrev uploader : GrpcServer
uploader = record { address = ":key"; secret = "key"; signs_with = some "key" }

abbrev galleries : GrpcServer
galleries = record { address = ":key"; secret = "key"; signs_with = none }

uploader_starts : start env host upload_service 0 ≡ (ok uploader, 0)
unfolding start upload_program load new_db
uploader_starts = refl

galleries_start : start env host gallery_service 0 ≡ (ok galleries, 0)
unfolding start gallery_program new_db
galleries_start = refl

-- The other service answers with the header that it got.
abbrev echo : List String → ℕ → Result (List String) × ℕ
echo header w = (ok header, w)

abbrev ticket : String
ticket = spell (record {
  claims = record { user_id = 0; role = service_role };
  issued_at = 0;
  expires_at = some token_ttl;
})

service_call-Accepted_example :
    (is_empty "key" ≡ false)
    × (header : List String) × (service_auth_interceptor jwt "key" echo [] 0 ≡ echo header 2)
    × (auth_func_override jwt "key" Overrides.gallery_service "/proto.GalleryService/IsMember" 5
          (record { authorization = header; claims = none })
        ≡ ok (record {
          authorization = header;
          claims = some (record { user_id = 0; role = service_role });
        }))
unfolding sign_token
service_call-Accepted_example =
    service_call-Accepted env host upload_service gallery_service uploader galleries 0 0 0 0 "key"
      uploader_starts galleries_start refl jwt jwt_laws echo ticket 0 2 Overrides.gallery_service
      "/proto.GalleryService/IsMember" 5 refl refl (ground arith)
