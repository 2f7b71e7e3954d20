-- ===== src/Auth/Access.antt =====
-- Who gets past the authentication of the services.
use progetto_sdcc.Prelude.{
  ℕ, ◌+◌, ◌≤◌, ◌<◌, ◌≡◌, refl, sym, String, ◌<>◌, Bool, true, false, Option, none, some, List, ◌∷◌,
  status, unauthenticated, Result, ok, err, ltb, inl, inr, Bool-cases, Result-cases, if◌then◌else◌,
}
use progetto_sdcc.Auth.{
  Jwt, Context, TokenClaims, Method, hmac, other, Parsed, key_of, auth_func, new_context,
}
use progetto_sdcc.Auth.Overrides.{
  Service, upload_service, gallery_service, user_service, is_public, auth_func_override,
  upload_override, gallery_override, user_override,
}

abbrev pub second : ℕ
second = 1000000000

-- A token without an expiry does not expire.
abbrev pub expired : ℕ → Option ℕ → Bool
expired now none = false
expired now (some e) = if ltb now e then false else true

-- What the JWT library promises. `contents` are the claims in a token that is signed with this
-- method and key.
pub record Laws (jwt : Jwt) : Type 0 where
  pub contents : Method → String → String → Option TokenClaims
  pub whole_seconds : (t : ℕ) → (jwt.numeric_date t ≤ t) × (t < jwt.numeric_date t + second)
  pub signed :
      (key token : String) (c : TokenClaims)
      → jwt.signed_string key c ≡ ok token
      → contents hmac key token ≡ some c
  pub genuine :
      (key : Method → Result String) (now : ℕ) (token : String) (p : Parsed)
      → jwt.parse_with_claims key now token ≡ ok p
      → p.valid ≡ true
      → (m : Method) × (k : String) × (c : TokenClaims) × (key m ≡ ok k)
        × (contents m k token ≡ some c)
        × (expired now c.expires_at ≡ false)
        × (p.claims ≡ some c)
  pub accepted :
      (key : Method → Result String) (now : ℕ) (k token : String) (c : TokenClaims)
      → key hmac ≡ ok k
      → contents hmac k token ≡ some c
      → expired now c.expires_at ≡ false
      → jwt.parse_with_claims key now token ≡ ok (record { valid = true; claims = some c })
  pub bearer :
      (token : String) (rest : List String)
      → jwt.auth_from_md (("bearer " <> token) ∷ rest) ≡ ok token

module _ (jwt : Jwt) (secret : String) (laws : Laws jwt) where
  -- The context carries the claims of a token from its header: one that is signed with the secret
  -- and has not expired.
  pub record IsAuthenticated (now : ℕ) (ctx ctx' : Context) : Type 0 where
    pub token : String
    pub contents : TokenClaims
    pub sent : jwt.auth_from_md ctx.authorization ≡ ok token
    pub signed : laws.contents hmac secret token ≡ some contents
    pub unexpired : expired now contents.expires_at ≡ false
    pub known : ctx' ≡ new_context ctx contents.claims

  pub data Authentication (now : ℕ) (ctx : Context) (r : Result Context) : Type 0 where
    granted :
        (ctx' : Context) → r ≡ ok ctx' → IsAuthenticated now ctx ctx' → Authentication now ctx r
    denied : (text : String) → r ≡ err (status unauthenticated text) → Authentication now ctx r

  key_of-hmac : (m : Method) (k : String) → key_of secret m ≡ ok k → (m ≡ hmac) × (k ≡ secret)
  key_of-hmac hmac k e = (refl, cc)
  key_of-hmac (other a) k e = absurd cc

  pub auth_func-Authentication :
      (now : ℕ) (ctx : Context) → Authentication now ctx (auth_func jwt secret now ctx)
  unfolding auth_func
  auth_func-Authentication now ctx = elim (Result-cases (jwt.auth_from_md ctx.authorization)) [
    | inr (e, q) ↦ rw q (denied _ refl)
    | inl (token, q) ↦ elim (Result-cases (jwt.parse_with_claims (key_of secret) now token)) [
      | inr (e, k) ↦ rw (q, k) (denied _ refl)
      | inl (p, k) ↦ elim (Bool-cases p.valid) [
        | inr v ↦ rw (q, k, v) (denied _ refl)
        | inl v ↦
            let (m, key, c, has, inside, live, claims) =
              laws.genuine (key_of secret) now token p k v in
            let (is_hmac, is_secret) = key_of-hmac m key has in
            rw (q, k, v, claims)
              (granted _ refl (record {
                token = token;
                contents = c;
                sent = q;
                signed = rw (sym is_hmac, sym is_secret) inside;
                unexpired = live;
                known = refl;
              }))
      ]
    ]
  ]

  -- What becomes of a call of a method.
  pub data Access (s : Service) (method : String) (now : ℕ) (ctx : Context) (r : Result Context)
      : Type 0 where
    anonymous : is_public s method ≡ true → r ≡ ok ctx → Access s method now ctx r
    authenticated :
        (ctx' : Context) → r ≡ ok ctx' → IsAuthenticated now ctx ctx' → Access s method now ctx r
    refused :
        (text : String)
        → is_public s method ≡ false
        → r ≡ err (status unauthenticated text)
        → Access s method now ctx r

  private_Access :
      (s : Service) (method : String) (now : ℕ) (ctx : Context)
      → is_public s method ≡ false
      → Access s method now ctx (auth_func jwt secret now ctx)
  private_Access s method now ctx h = elim (auth_func-Authentication now ctx) [
    | granted ctx' q a ↦ authenticated ctx' q a
    | denied text q ↦ refused text h q
  ]

  -- A call of any method of the three services either gets a context with the claims of a token
  -- from its header, which is signed with the secret by HMAC and has not expired, or is a call of
  -- a public method and keeps its context, or is refused as unauthenticated. A call of a public
  -- method is never refused.
  pub auth_func_override-Access :
      (s : Service) (method : String) (now : ℕ) (ctx : Context)
      → Access s method now ctx (auth_func_override jwt secret s method now ctx)
  unfolding upload_override gallery_override user_override
  auth_func_override-Access upload_service method now ctx =
      elim (Bool-cases (is_public upload_service method)) [
        | inl h ↦ anonymous h (rw h refl)
        | inr h ↦ rw h (private_Access upload_service method now ctx h)
      ]
  auth_func_override-Access user_service method now ctx =
      elim (Bool-cases (is_public user_service method)) [
        | inl h ↦ anonymous h (rw h refl)
        | inr h ↦ rw h (private_Access user_service method now ctx h)
      ]
  auth_func_override-Access gallery_service method now ctx =
      elim (Bool-cases (is_public gallery_service method)) [
        | inr h ↦ rw h (private_Access gallery_service method now ctx h)
        | inl h ↦ elim (auth_func-Authentication now ctx) [
          | granted ctx' q a ↦ authenticated ctx' (rw (h, q) refl) a
          | denied text q ↦ anonymous h (rw (h, q) refl)
        ]
      ]
