-- ===== src/User/Accepted.antt =====
-- The tokens that the user service hands out, at the services that check them.
use progetto_sdcc.Prelude.{
  ℕ, ◌+◌, ◌≤◌, ◌<◌, ◌≡◌, String, List, status, unauthenticated, ok, err, arith, ◌||◌, is_empty, inl,
  inr, Bool-cases, Result-cases, [],
}
use progetto_sdcc.Auth.{Jwt, auth_func, new_context, token_ttl}
use progetto_sdcc.Auth.Tokens.{sign_token}
use progetto_sdcc.Auth.Access.{Laws, second}
use progetto_sdcc.Auth.Lifetime.{bearing, auth_func-deadline}
use progetto_sdcc.User.{User, RegisterRequest, Services, role_of, register, login}
use progetto_sdcc.User.Database.{
  Backend, services, hash_password, check_password, create_user, get_by_email,
}

module _ (jwt : Jwt) (secret : String) (laws : Laws jwt) where
  -- A request with the token is authenticated as the user and role until a deadline, which is an
  -- hour after the clock of a state, less the fraction of a second, and refused from then on.
  pub record Accepted (token : String) (user : ℕ) (role : String) (w : jwt.World) : Type 0 where
    pub deadline : ℕ
    pub below : deadline ≤ (jwt.now w).0 + token_ttl
    pub above : (jwt.now w).0 + token_ttl < deadline + second
    pub accepted :
        (now : ℕ) (rest : List String)
        → now < deadline
        → auth_func jwt secret now (bearing jwt secret laws token rest)
          ≡ ok (
              new_context
                (bearing jwt secret laws token rest)
                (record { user_id = user; role = role }))
    pub refused :
        (now : ℕ) (rest : List String)
        → deadline ≤ now
        → (text : String) × (auth_func jwt secret now (bearing jwt secret laws token rest)
            ≡ err (status unauthenticated text))

  pub sign_token-Accepted :
      (user : ℕ) (role token : String) (w w' : jwt.World)
      → sign_token jwt secret user role w ≡ (ok token, w')
      → Accepted token user role w
  sign_token-Accepted user role token w w' e =
      let (text, below, above, q) =
        auth_func-deadline jwt secret laws user role token w w' 0 [] e in
      record {
        deadline = jwt.numeric_date ((jwt.now w).0 + token_ttl);
        below = below;
        above = above;
        accepted = λ now rest h.
            let (s, b, a, r) = auth_func-deadline jwt secret laws user role token w w' now rest e in
            ground (arith, r);
        refused = λ now rest h.
            let (s, b, a, r) = auth_func-deadline jwt secret laws user role token w w' now rest e in
            (s, ground (arith, r));
      }

  module _ (backend : Backend jwt) where
    abbrev ours : Services
    ours = services jwt secret backend

    abbrev new_user : RegisterRequest → String → User
    new_user req hash = record {
      id = 0;
      email = req.email;
      password = hash;
      role = role_of req.role;
    }

    -- A registration that succeeds hashed the password and stored a user with that hash and the role
    -- asked for, and its token is accepted as that of the stored user with that role until an hour
    -- after the user was stored, and refused as unauthenticated from then on.
    pub register-Accepted :
        (req : RegisterRequest) (token : String) (w : jwt.World)
        → (register ours req w).0 ≡ ok token
        → let w1 = (backend.generate_from_password req.password w).1 in
          (hash : String) × (u : User) × ((backend.generate_from_password req.password w).0
            ≡ ok hash)
          × ((backend.create (new_user req hash) w1).0 ≡ ok u)
          × Accepted token u.id (role_of req.role) (backend.create (new_user req hash) w1).1
    unfolding register hash_password create_user
    register-Accepted req token w h =
        elim (Bool-cases (is_empty req.email || is_empty req.password)) [
          | inl e ↦ absurd (ground arith)
          | inr e ↦ elim (Result-cases (backend.generate_from_password req.password w).0) [
            | inr (x, q) ↦ absurd (ground arith)
            | inl (hash, q) ↦
                let w1 = (backend.generate_from_password req.password w).1 in
                let created = backend.create (new_user req hash) w1 in
                elim (Result-cases created.0) [
                  | inr (x, c) ↦ absurd (ground arith)
                  | inl (u, c) ↦
                      let signs = sign_token jwt secret u.id (role_of req.role) created.1 in
                      elim (Result-cases signs.0) [
                        | inr (x, s) ↦ absurd (ground arith)
                        | inl (t, s) ↦
                            let same : t ≡ token = ground arith in
                            (
                              hash,
                              u,
                              q,
                              c,
                              sign_token-Accepted u.id (role_of req.role) token created.1 signs.1
                                  (ground arith),
                            )
                      ]
                ]
          ]
        ]

    -- A login that succeeds was for a stored user whose hash matches the password, and its token is
    -- accepted as that of this user with the stored role until an hour after the login, and refused
    -- as unauthenticated from then on.
    pub login-Accepted :
        (email password token : String) (w : jwt.World)
        → (login ours email password w).0 ≡ ok token
        → (u : User) × (backend.first_by_email email w ≡ ok u)
          × (backend.compare_hash_and_password u.password password ≡ ok tt)
          × Accepted token u.id u.role w
    unfolding login get_by_email check_password
    login-Accepted email password token w h =
        elim (Bool-cases (is_empty email || is_empty password)) [
          | inl e ↦ absurd (ground arith)
          | inr e ↦ elim (Result-cases (backend.first_by_email email w)) [
            | inr (x, q) ↦ absurd (ground arith)
            | inl (u, q) ↦
                elim (Result-cases (backend.compare_hash_and_password u.password password)) [
                  | inr (x, c) ↦ absurd (ground arith)
                  | inl (y, c) ↦ elim (Result-cases (sign_token jwt secret u.id u.role w).0) [
                    | inr (x, s) ↦ absurd (ground arith)
                    | inl (t, s) ↦
                        let same : t ≡ token = ground arith in
                        (
                          u,
                          q,
                          ground arith,
                          sign_token-Accepted u.id u.role token w
                              (sign_token jwt secret u.id u.role w).1 (ground arith),
                        )
                  ]
                ]
          ]
        ]
