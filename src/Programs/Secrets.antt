-- ===== src/Programs/Secrets.antt =====
-- The secrets of programs that are started in one environment.
use progetto_sdcc.Prelude.{
  ℕ, ◌+◌, ◌≤◌, ◌≡◌, refl, sym, ◌∙◌, subst, String, ◌<>◌, wrapped, false, Option, none, some, List,
  [], ◌∷◌, arith, Result, ok, err, is_empty, inl, inr, Bool-cases,
}
use progetto_sdcc.Prelude.Action.{Action, or_fail, lift, and_then, ◌>>=◌, ◌>>◌, pure}
use progetto_sdcc.Auth.{Jwt, token_ttl, service_role}
use progetto_sdcc.Auth.Tokens.{sign_token, service_auth_interceptor}
use progetto_sdcc.Auth.Overrides.{Service, is_public, auth_func_override}
use progetto_sdcc.Auth.Access.{Laws, second}
use progetto_sdcc.Auth.Lifetime.{service_auth_interceptor-Access}
use progetto_sdcc.Programs.{
  Environment, Host, GrpcServer, listener, sql_database, event_publisher, object_storage,
  photo_publisher, connection, redis, broadcasting, consuming, started, must_all,
  consumer_resources, required, must, load, new_db, user_program, gallery_program, upload_program,
  notification_program, Program, user_service, gallery_service, upload_service,
  notification_service, start,
}

-- Whatever an action returns has a property.
abbrev Ends : {S A : Type 0} → (A → Type 0) → Action S A → Type 0
Ends {S = S} {A = A} P m = (s s' : S) (a : A) → m s ≡ (ok a, s') → P a

Ends-and_then :
    {S A B : Type 0} (P : B → Type 0) (r : Result A × S) (f : A → Action S B) (s' : S) (b : B)
    → ((a : A) → Ends P (f a))
    → and_then r f ≡ (ok b, s')
    → P b
Ends-and_then P (err e, s) f s' b h q = absurd cc
Ends-and_then P (ok a, s) f s' b h q = h a s s' b q

Ends->>= :
    {S A B : Type 0} (P : B → Type 0) (m : Action S A) (f : A → Action S B)
    → ((a : A) → Ends P (f a))
    → Ends P (m >>= f)
Ends->>= P m f h s s' b q = Ends-and_then P (m s) f s' b h q

Ends->> :
    {S B : Type 0} (P : B → Type 0) (m : Action S (Unit {0})) (k : Action S B)
    → Ends P k
    → Ends P (m >> k)
Ends->> P m k h = Ends->>= P m (λ u. k) λ u. h

Ends-pure : {S A : Type 0} (P : A → Type 0) (a : A) → P a → Ends {S = S} P (pure a)
Ends-pure P a h s s' b q = let same : a ≡ b = cc in subst P same h

module _ (env : Environment) (host : Host) where
  open host use {World}

  Ends-required :
      {B : Type 0} (P : B → Type 0) (name : String) (f : String → Action World B)
      → (is_empty (env name) ≡ false → Ends P (f (env name)))
      → Ends P (required env host name >>= f)
  Ends-required P name f h s s' b q = elim (Bool-cases (is_empty (env name))) [
    | inl e ↦ absurd (ground arith)
    | inr e ↦ h e s s' b (rw e at q)
  ]

  -- The secret of the environment, which is not empty, is what the server checks and signs with.
  pub record Secret (server : GrpcServer) : Type 0 where
    pub given : is_empty (env "JWT_SECRET") ≡ false
    pub checks : server.secret ≡ env "JWT_SECRET"
    pub signs : (key : String) → server.signs_with ≡ some key → key ≡ env "JWT_SECRET"

  -- The end of a program.
  served :
      (address : String) (key : Option String)
      → is_empty (env "JWT_SECRET") ≡ false
      → ((k : String) → key ≡ some k → k ≡ env "JWT_SECRET")
      → Ends {S = World} Secret
          (pure (record { address = address; secret = env "JWT_SECRET"; signs_with = key }))
  served address key given signs =
      Ends-pure Secret _ (record { given = given; checks = refl; signs = signs })

  user_program-Secret : Ends Secret (user_program env host)
  unfolding user_program
  user_program-Secret = Ends-required Secret "JWT_SECRET" _ λ given.
      Ends->> Secret (must env host "Failed to listen" (listener (":" <> env "USER_GRPC_PORT"))) _ (
        Ends->> Secret
          (or_fail (wrapped "Failed to connect to database")
            (new_db env host "DB_NAME_USER" "DB_PORT_USER" ("User" ∷ [])))
          _ (served (":" <> env "USER_GRPC_PORT") none given λ k e. absurd cc))

  gallery_program-Secret : Ends Secret (gallery_program env host)
  unfolding gallery_program
  gallery_program-Secret = Ends-required Secret "JWT_SECRET" _ λ given.
      Ends->> Secret (must env host "Failed to listen" (listener (":" <> env "GALLERY_GRPC_PORT")))
        _
        (Ends->> Secret
          (or_fail (wrapped "Failed to connect to database")
            (new_db env host "DB_NAME_GALLERY" "DB_PORT_GALLERY" ("Gallery" ∷ "Member" ∷ [])))
          _
          (Ends->> Secret (must env host "Failed to get underlying sql.DB" sql_database) _ (
            Ends->> Secret
              (must env host "Failed to connect to RabbitMQ" (event_publisher (env "RABBITMQ_URL")))
              _ (served (":" <> env "GALLERY_GRPC_PORT") none given λ k e. absurd cc))))

  own_secret : (key : String) → some (env "JWT_SECRET") ≡ some key → key ≡ env "JWT_SECRET"
  own_secret key e = cc

  upload_program-Secret : Ends Secret (upload_program env host)
  unfolding upload_program
  upload_program-Secret = Ends-required Secret "JWT_SECRET" _ λ given.
      Ends->>= Secret (or_fail (wrapped "Failed to load config") (lift (load env))) _ λ cfg.
        Ends->> Secret (must env host "Failed to connect to MinIO" (object_storage cfg.storage)) _ (
          Ends->> Secret (must env host "Failed to create RabbitMQ publisher" photo_publisher) _ (
            Ends->> Secret
              (must env host "Failed to dial Gallery Service"
                (connection cfg.gallery_address (some (env "JWT_SECRET"))))
              _
              (Ends->> Secret
                (or_fail (wrapped "Failed to connect to database")
                  (new_db env host "DB_NAME_UPLOAD" "DB_PORT_UPLOAD" ("Record" ∷ [])))
                _
                (Ends->> Secret (must env host "Failed to get underlying sql.DB" sql_database) _ (
                  Ends->> Secret
                    (must env host "Failed to listen" (listener (":" <> cfg.grpc_port))) _
                    (served (":" <> cfg.grpc_port) (some (env "JWT_SECRET")) given own_secret))))))

  notification_program-Secret : Ends Secret (notification_program env host)
  unfolding notification_program
  notification_program-Secret = Ends-required Secret "JWT_SECRET" _ λ given.
      Ends-required Secret "NOTIFICATION_GRPC_PORT" _ λ port.
        Ends-required Secret "GALLERY_SERVICE_ADDRESS" _ λ gallery.
          Ends-required Secret "REDIS_ADDR" _ λ address.
            Ends->> Secret (started env host (redis (env "REDIS_ADDR"))) _ (
              Ends->> Secret (started env host broadcasting) _ (
                Ends-required Secret "RABBITMQ_URL" _ λ url.
                  Ends->> Secret
                    (must_all env host (
                      consumer_resources (env "JWT_SECRET") (env "GALLERY_SERVICE_ADDRESS")
                        (env "RABBITMQ_URL")))
                    _
                    (Ends->> Secret (started env host consuming) _ (
                      Ends->> Secret
                        (must env host "Failed to listen"
                          (listener (":" <> env "NOTIFICATION_GRPC_PORT")))
                        _
                        (served (":" <> env "NOTIFICATION_GRPC_PORT") (some (env "JWT_SECRET"))
                          given own_secret)))))

  start-Secret : (p : Program) → Ends Secret (start env host p)
  unfolding start
  start-Secret user_service = user_program-Secret
  start-Secret gallery_service = gallery_program-Secret
  start-Secret upload_service = upload_program-Secret
  start-Secret notification_service = notification_program-Secret

  -- If two services start in one environment and the first signs its calls, then the secret is not
  -- empty, and a call of the first one, if its token can be signed and nothing else is in the
  -- header, arrives with a header that each method of the second that is not public accepts within
  -- an hour less a second, as that of a service.
  pub service_call-Accepted :
      (p q : Program) (server other : GrpcServer) (v v' w w' : World) (key : String)
      → start env host p v ≡ (ok server, v')
      → start env host q w ≡ (ok other, w')
      → server.signs_with ≡ some key
      → (jwt : Jwt) (laws : Laws jwt) {A : Type 0}
        (invoker : List String → jwt.World → Result A × jwt.World) (token : String)
        (t t' : jwt.World) (s : Service) (method : String) (now : ℕ)
      → sign_token jwt key 0 service_role t ≡ (ok token, t')
      → is_public s method ≡ false
      → now + second ≤ (jwt.now t).0 + token_ttl
      → (is_empty key ≡ false)
        × (header : List String) × (service_auth_interceptor jwt key invoker [] t
            ≡ invoker header t')
        × (auth_func_override jwt other.secret s method now
              (record { authorization = header; claims = none })
            ≡ ok (record {
              authorization = header;
              claims = some (record { user_id = 0; role = service_role });
            }))
  service_call-Accepted p q server other v v' w w' key started_p started_q signs jwt laws invoker
        token t t' s method now signed private soon =
      let first = start-Secret p v v' server started_p in
      let checked = start-Secret q w w' other started_q in
      let same : key ≡ other.secret = first.signs key signs ∙ sym checked.checks in
      let (header, sent, accepted) =
        service_auth_interceptor-Access jwt key laws invoker token t t' s method now signed private
          soon in
      (
        subst (λ k. is_empty k ≡ false) (sym (first.signs key signs)) first.given,
        header,
        sent,
        rw (← same) accepted,
      )
