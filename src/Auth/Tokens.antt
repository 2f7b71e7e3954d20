-- ===== src/Auth/Tokens.antt =====
-- internal/auth/auth.go: the signing of tokens.
use progetto_sdcc.Prelude.{ℕ, ◌+◌, String, ◌<>◌, some, List, [], ◌∷◌, ◌++◌, wrapped, ok}
use progetto_sdcc.Prelude.Action.{Action, ◌>>=◌, lift, or_fail}
use progetto_sdcc.Auth.{Jwt, service_role, token_ttl}

module _ (jwt : Jwt) (secret : String) where
  open jwt use {World}

  abbrev pub time : Action World ℕ
  time w = (ok (jwt.now w).0, (jwt.now w).1)

  unfoldable pub sign_token : ℕ → String → Action World String
  sign_token user role = do
    expiry ← time
    issue ← time
    or_fail (wrapped "sign") (
        lift (
          jwt.signed_string secret (record {
            claims = record { user_id = user; role = role };
            issued_at = jwt.numeric_date issue;
            expires_at = some (jwt.numeric_date (expiry + token_ttl));
          })))

  -- `serviceAuthInterceptor`: the call of another service with the values of the outgoing header.
  unfoldable pub service_auth_interceptor :
      {A : Type 0} → (List String → Action World A) → List String → Action World A
  service_auth_interceptor invoker outgoing = do
    token ← sign_token 0 service_role
    invoker (outgoing ++ (("bearer " <> token) ∷ []))
