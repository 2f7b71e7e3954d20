-- ===== src/Auth/Tests.antt =====
-- With the tokens of Auth.Sample.
use progetto_sdcc.Prelude.{none, []}
use progetto_sdcc.Auth.{Context}
use progetto_sdcc.Auth.Overrides.{upload_service, auth_func_override}
use progetto_sdcc.Auth.Access.{Access, auth_func_override-Access}
use progetto_sdcc.Auth.Sample.{jwt, jwt_laws}

asked : Context
asked = record { authorization = []; claims = none }

auth_func_override-Access_example :
    Access jwt "key" jwt_laws upload_service "/proto.UploadService/UploadPhoto" 5 asked
      (auth_func_override jwt "key" upload_service "/proto.UploadService/UploadPhoto" 5 asked)
auth_func_override-Access_example =
    auth_func_override-Access jwt "key" jwt_laws upload_service "/proto.UploadService/UploadPhoto" 5
      asked
