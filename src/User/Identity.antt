-- ===== src/User/Identity.antt =====
-- The identity that a user registers and logs in with, over the repository of
-- internal/user/repository/postgres.go and the tokens of internal/auth/auth.go.
use progetto_sdcc.Prelude.{
  ◌≡◌, String, Bool, true, false, Option, some, Error, statusf, internal, ok, err, if◌then◌else◌,
}
use progetto_sdcc.Auth.{Jwt}
use progetto_sdcc.Auth.Tokens.{sign_token}
use progetto_sdcc.Auth.Access as Access
use progetto_sdcc.User.{
  User, Role, role_user, role_moderator, role_other, RegisterRequest, role_of, login,
}
use progetto_sdcc.User.Database.{Backend, services}
use progetto_sdcc.User.Accepted.{Accepted}

-- What the code relies on while the database serves: bcrypt accepts a password for its own hash; a
-- row that was created is the user given, with an identifier, and stands under its address; a row is
-- found by its address; reading the clock changes no row.
pub record Laws (jwt : Jwt) (backend : Backend jwt) : Type 0 where
  pub users : jwt.World → String → Option User
  pub matches :
      (p h : String) (w : jwt.World)
      → (backend.generate_from_password p w).0 ≡ ok h
      → backend.compare_hash_and_password h p ≡ ok tt
  pub created :
      (u v : User) (w : jwt.World)
      → (backend.create u w).0 ≡ ok v
      → (users (backend.create u w).1 u.email ≡ some v)
        × (v.email ≡ u.email)
        × (v.password ≡ u.password)
        × (v.role ≡ u.role)
  pub found :
      (email : String) (u : User) (w : jwt.World)
      → users w email ≡ some u
      → backend.first_by_email email w ≡ ok u
  pub clock_keeps : (w : jwt.World) → users (jwt.now w).1 ≡ users w

-- The request asks for the role of a moderator.
abbrev pub asks_moderator : Role → Bool
asks_moderator role_user = false
asks_moderator role_moderator = true
asks_moderator (role_other n) = false

module _ (jwt : Jwt) (secret : String) (access : Access.Laws jwt) (backend : Backend jwt)
    (laws : Laws jwt backend) where
  abbrev new_user : RegisterRequest → String → User
  new_user req hash = record { id = 0; email = req.email; password = hash; role = role_of req.role }

  -- What a registration leaves: a row with the role asked for and a password that matches, whose
  -- identity the token carries.
  pub record Registered (req : RegisterRequest) (token : String) (w : jwt.World) : Type 0 where
    pub user : User
    pub there : laws.users w req.email ≡ some user
    pub role : user.role ≡ (if asks_moderator req.role then "ROLE_MODERATOR" else "ROLE_USER")
    pub password : backend.compare_hash_and_password user.password req.password ≡ ok tt
    pub signed_at : jwt.World
    pub accepted : Accepted jwt secret access token user.id user.role signed_at

  -- A login as the user ends as the signing of its token does.
  pub data LoggedIn (u : User) (email password : String) (w : jwt.World) : Type 0 where
    logged_in :
        (again : String)
        → (login (services jwt secret backend) email password w).0 ≡ ok again
        → Accepted jwt secret access again u.id u.role w
        → LoggedIn u email password w
    unsigned :
        (e : Error)
        → (sign_token jwt secret u.id u.role w).0 ≡ err e
        → (login (services jwt secret backend) email password w).0
          ≡ err (statusf internal "error for token" e)
        → LoggedIn u email password w
