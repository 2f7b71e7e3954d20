-- ===== src/Auth.antt =====
-- internal/auth/auth.go: tokens, and the claims that an authenticated request carries. The JWT library,
-- the reading of the header and the clock are a parameter; times are nanoseconds.
pub mod Tokens
pub mod Overrides
pub mod Access
pub mod Lifetime
pub mod Sample
mod Tests
use progetto_sdcc.Prelude.{
  ℕ, ◌+◌, ◌*◌, String, ◌<>◌, Bool, Option, none, some, List, [], ◌∷◌, ◌++◌, Error, status, statusf,
  wrapped, unauthenticated, Result, ok, err, ◌>>=◌, ◌>>◌, guard, on_error,
}

-- `Claims`, without the registered claims of the JWT library.
pub record Claims : Type 0 where
  pub user_id : ℕ
  pub role : String

-- `Claims` with them, those that the code sets; a token of another origin may lack an expiry.
pub record TokenClaims : Type 0 where
  pub claims : Claims
  pub issued_at : ℕ
  pub expires_at : Option ℕ

abbrev pub service_role : String
service_role = "ROLE_SERVICE"

-- `configuration.TokenTTL`, one hour.
abbrev pub token_ttl : ℕ
token_ttl = 3600 * 1000000000

-- `FromContext`: what the context holds under the claims' key.
abbrev pub from_context : Option Claims → Result Claims
from_context none = err (status unauthenticated "no auth claims in context")
from_context (some c) = ok c

-- The signing method in a token's header.
pub data Method : Type 0 where
  hmac : Method
  other : String → Method

-- What `jwt.ParseWithClaims` returns beside its error; the claims are none where they have another
-- type.
pub record Parsed : Type 0 where
  pub valid : Bool
  pub claims : Option TokenClaims

pub record Jwt : Type 1 where
  pub World : Type 0
  -- `time.Now`
  pub now : World → ℕ × World
  -- `jwt.NewNumericDate`, which drops what is less than a second
  pub numeric_date : ℕ → ℕ
  -- `SignedString` of a token with the method HS256
  pub signed_string : String → TokenClaims → Result String
  -- `jwt.ParseWithClaims` with a key function, at a time
  pub parse_with_claims : (Method → Result String) → ℕ → String → Result Parsed
  -- `grpcauth.AuthFromMD` for "bearer", of the values of the header "authorization"
  pub auth_from_md : List String → Result String

-- What a request's context holds.
pub record Context : Type 0 where
  pub authorization : List String
  pub claims : Option Claims

-- `NewContext`
abbrev pub new_context : Context → Claims → Context
new_context ctx c = record ctx { claims = some c }

abbrev pub key_of : String → Method → Result String
key_of secret hmac = ok secret
key_of secret (other alg) =
    err (statusf unauthenticated "unexpected signing method" (Error.plain alg))

abbrev with_claims : Context → Option TokenClaims → Result Context
with_claims ctx none = err (status unauthenticated "malformed token claims")
with_claims ctx (some c) = ok (new_context ctx c.claims)

module _ (jwt : Jwt) (secret : String) where
  -- `AuthFunc`, at a time.
  unfoldable pub auth_func : ℕ → Context → Result Context
  auth_func now ctx = do
    token ←
        on_error (λ _. status unauthenticated "missing or malformed Authorization header")
          (jwt.auth_from_md ctx.authorization)
    parsed ←
        on_error (λ _. status unauthenticated "invalid or expired token")
          (jwt.parse_with_claims (key_of secret) now token)
    guard parsed.valid (status unauthenticated "invalid or expired token")
    with_claims ctx parsed.claims
