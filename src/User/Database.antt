-- ===== src/User/Database.antt =====
-- internal/user/repository/postgres.go, and the password functions of internal/auth/auth.go: what the
-- handlers of the user service call. GORM and bcrypt are a parameter, by the calls that the code
-- makes of them.
use progetto_sdcc.Prelude.{ℕ, String, Bool, Result, is_ok}
use progetto_sdcc.Prelude.Action.{Action, ◌>>=◌, pure}
use progetto_sdcc.Auth.{Jwt}
use progetto_sdcc.Auth.Tokens.{sign_token}
use progetto_sdcc.User.{User, Services}

pub record Backend (jwt : Jwt) : Type 0 where
  -- `Create(&user)`, which fills in the user
  pub create : User → jwt.World → Result User × jwt.World
  -- `Where("email = ?", email).First(&user)`
  pub first_by_email : String → jwt.World → Result User
  -- `bcrypt.GenerateFromPassword` and `bcrypt.CompareHashAndPassword`
  pub generate_from_password : String → jwt.World → Result String × jwt.World
  pub compare_hash_and_password : String → String → Result (Unit {0})

module _ (jwt : Jwt) (secret : String) (backend : Backend jwt) where
  open jwt use {World}

  unfoldable pub hash_password : String → Action World String
  hash_password password w = backend.generate_from_password password w

  -- Whether the error is nil.
  unfoldable pub check_password : String → String → Bool
  check_password hashed password = is_ok (backend.compare_hash_and_password hashed password)

  unfoldable pub create_user : User → Action World ℕ
  create_user user = do created ← backend.create user; pure created.id

  unfoldable pub get_by_email : String → Action World User
  get_by_email email w = (backend.first_by_email email w, w)

  -- `NewServer` with the repository of `NewDB`.
  abbrev pub services : Services
  services = record {
    World = World;
    hash_password = hash_password;
    check_password = check_password;
    create_user = create_user;
    get_by_email = get_by_email;
    sign_token = sign_token jwt secret;
  }
