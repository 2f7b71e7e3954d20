-- ===== src/Auth/Lifetime.antt =====
-- How long a signed token is good for.
use progetto_sdcc.Prelude.{
  ℕ, ◌+◌, ◌≤◌, ◌<◌, ◌≡◌, ◌≢◌, refl, sym, ap, ◌∙◌, String, ◌<>◌, true, false, none, some, List, [],
  ◌∷◌, status, unauthenticated, Result, ok, err, ltb, arith, inl, inr, Bool-cases, Result-cases,
  if◌then◌else◌,
}
use progetto_sdcc.Auth.{
  Jwt, Context, TokenClaims, hmac, key_of, auth_func, token_ttl, service_role, new_context,
}
use progetto_sdcc.Auth.Tokens.{sign_token, service_auth_interceptor}
use progetto_sdcc.Auth.Overrides.{
  Service, upload_service, gallery_service, user_service, is_public, auth_func_override,
  upload_override, gallery_override, user_override,
}
use progetto_sdcc.Auth.Access.{Laws, second, expired, granted, denied, auth_func-Authentication}

module _ (jwt : Jwt) (secret : String) (laws : Laws jwt) where
  sign_token-signed :
      (user : ℕ) (role token : String) (w w' : jwt.World)
      → sign_token jwt secret user role w ≡ (ok token, w')
      → (c : TokenClaims) × (c.claims ≡ record { user_id = user; role = role })
        × (c.expires_at ≡ some (jwt.numeric_date ((jwt.now w).0 + token_ttl)))
        × (laws.contents hmac secret token ≡ some c)
  unfolding sign_token
  sign_token-signed user role token w w' e =
      let c : TokenClaims = record {
        claims = record { user_id = user; role = role };
        issued_at = jwt.numeric_date (jwt.now (jwt.now w).1).0;
        expires_at = some (jwt.numeric_date ((jwt.now w).0 + token_ttl));
      } in
      elim (Result-cases (jwt.signed_string secret c)) [
        | inl (t, q) ↦
            let same : t ≡ token = ground arith in
            (c, refl, refl, laws.signed secret token c (rw (sym same) q))
        | inr (x, q) ↦ absurd (ground arith)
      ]

  unexpired_before :
      (now deadline : ℕ) → ltb now deadline ≡ true → expired now (some deadline) ≡ false
  unexpired_before now deadline h = rw h refl

  expired_after : (now deadline : ℕ) → ltb now deadline ≡ false → expired now (some deadline) ≡ true
  expired_after now deadline h = rw h refl

  true≢false : true ≢ false
  true≢false e = cc

  -- A request with this token.
  abbrev pub bearing : String → List String → Context
  bearing token rest = record { authorization = ("bearer " <> token) ∷ rest; claims = none }

  auth_func-contents :
      (now : ℕ) (token : String) (rest : List String) (c : TokenClaims) (deadline : ℕ)
      → laws.contents hmac secret token ≡ some c
      → c.expires_at ≡ some deadline
      → (text : String) × (auth_func jwt secret now (bearing token rest) ≡ (
          if ltb now deadline
          then ok (new_context (bearing token rest) c.claims)
          else err (status unauthenticated text)))
  unfolding auth_func
  auth_func-contents now token rest c deadline e d = elim (Bool-cases (ltb now deadline)) [
    | inl h ↦ (
      "",
      rw
          (
            laws.bearer token rest,
            laws.accepted (key_of secret) now secret token c refl e (rw (d, h) refl),
            h,
          )
          refl,
    )
    | inr h ↦ elim (auth_func-Authentication jwt secret laws now (bearing token rest)) [
      | denied text q ↦ (text, rw h q)
      | granted ctx' q a ↦
          let sent = laws.bearer token rest in
          let same : a.token ≡ token = ground (arith, sent, a.sent) in
          let signed : laws.contents hmac secret token ≡ some a.contents = rw (sym same) a.signed in
          let like : a.contents ≡ c = ground (arith, signed, e) in
          let live : expired now (some deadline) ≡ false =
            ap (expired now) (sym d ∙ sym (ap (λ (x : TokenClaims). x.expires_at) like))
            ∙ a.unexpired in
          absurd (true≢false (sym (expired_after now deadline h) ∙ live))
    ]
  ]

  auth_func_override-private :
      (s : Service) (method : String) (now : ℕ) (ctx : Context)
      → is_public s method ≡ false
      → auth_func_override jwt secret s method now ctx ≡ auth_func jwt secret now ctx
  unfolding upload_override gallery_override user_override
  auth_func_override-private upload_service method now ctx h = rw h refl
  auth_func_override-private gallery_service method now ctx h = rw h refl
  auth_func_override-private user_service method now ctx h = rw h refl

  pub auth_func-deadline :
      (user : ℕ) (role token : String) (w w' : jwt.World) (now : ℕ) (rest : List String)
      → sign_token jwt secret user role w ≡ (ok token, w')
      → let deadline = jwt.numeric_date ((jwt.now w).0 + token_ttl) in
        (text : String) × (deadline ≤ (jwt.now w).0 + token_ttl)
        × ((jwt.now w).0 + token_ttl < deadline + second)
        × (auth_func jwt secret now (bearing token rest) ≡ (
            if ltb now deadline
            then ok (new_context (bearing token rest) (record { user_id = user; role = role }))
            else err (status unauthenticated text)))
  auth_func-deadline user role token w w' now rest e =
      let expiry = (jwt.now w).0 + token_ttl in
      let (c, named, dated, inside) = sign_token-signed user role token w w' e in
      let (text, q) = auth_func-contents now token rest c (jwt.numeric_date expiry) inside dated in
      let (below, above) = laws.whole_seconds expiry in (text, below, above, rw (sym named) q)

  -- The request with a token that `sign_token` made is authenticated as the user and role until a
  -- deadline, and refused as unauthenticated from then on. The deadline is one hour after the clock
  -- was read, less the fraction of a second that numeric dates drop.
  pub auth_func-sign_token :
      (user : ℕ) (role token : String) (w w' : jwt.World) (now : ℕ) (rest : List String)
      → sign_token jwt secret user role w ≡ (ok token, w')
      → (deadline : ℕ) × (text : String) × (deadline ≤ (jwt.now w).0 + token_ttl)
        × ((jwt.now w).0 + token_ttl < deadline + second)
        × (auth_func jwt secret now (bearing token rest) ≡ (
            if ltb now deadline
            then ok (new_context (bearing token rest) (record { user_id = user; role = role }))
            else err (status unauthenticated text)))
  auth_func-sign_token user role token w w' now rest e =
      let (text, below, above, q) = auth_func-deadline user role token w w' now rest e in
      (jwt.numeric_date ((jwt.now w).0 + token_ttl), text, below, above, q)

  -- A call with `serviceAuthInterceptor`, if the token can be signed and nothing else is in the
  -- header, arrives with a header that each of the three services accepts on a method that is not
  -- public, until the deadline of the token, and the claims are those of a service.
  pub service_auth_interceptor-Access :
      {A : Type 0} (invoker : List String → jwt.World → Result A × jwt.World) (token : String)
      (w w' : jwt.World) (s : Service) (method : String) (now : ℕ)
      → sign_token jwt secret 0 service_role w ≡ (ok token, w')
      → is_public s method ≡ false
      → now + second ≤ (jwt.now w).0 + token_ttl
      → (header : List String) × (service_auth_interceptor jwt secret invoker [] w
          ≡ invoker header w')
        × (auth_func_override jwt secret s method now
              (record { authorization = header; claims = none })
            ≡ ok (record {
              authorization = header;
              claims = some (record { user_id = 0; role = service_role });
            }))
  unfolding service_auth_interceptor
  service_auth_interceptor-Access invoker token w w' s method now e private soon =
      let (deadline, text, below, above, q) =
        auth_func-sign_token 0 service_role token w w' now [] e in
      let live : ltb now deadline ≡ true = ground arith in
      (
        ("bearer " <> token) ∷ [],
        rw e refl,
        auth_func_override-private s method now _ private ∙ q ∙ rw live refl,
      )
