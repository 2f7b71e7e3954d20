-- ===== src/User.antt =====
-- internal/user/api/grpc.go: registration and login. The repository, bcrypt and the signing of tokens
-- are a parameter. An error that is passed on as its text is kept as the argument of a format
-- without a text.
pub mod Identity
pub mod Database
pub mod Accepted
mod Tests
use progetto_sdcc.Prelude.{
  ℕ, String, Bool, true, false, not, ◌||◌, Error, status, statusf, invalid_argument, not_found,
  internal, already_exists, unauthenticated, Result, ok, err, is_empty,
}
use progetto_sdcc.Prelude.Action.{Action, and_then, ◌>>=◌, ◌>>◌, pure, require, or_fail}

-- `models.User`
pub record User : Type 0 where
  pub id : ℕ
  pub email : String
  pub password : String
  pub role : String

-- `userpb.Role`, of which any value may arrive.
pub data Role : Type 0 where
  role_user role_moderator : Role
  role_other : ℕ → Role

pub record RegisterRequest : Type 0 where
  pub email : String
  pub password : String
  pub role : Role

pub record Services : Type 1 where
  pub World : Type 0
  -- `auth.HashPassword`, which draws a salt, and `auth.CheckPassword`, whether its error is nil
  pub hash_password : String → World → Result String × World
  pub check_password : String → String → Bool
  -- `repository.Repository`
  pub create_user : User → World → Result ℕ × World
  pub get_by_email : String → World → Result User × World
  -- `auth.SignToken` with the server's secret: user and role
  pub sign_token : ℕ → String → World → Result String × World

-- The role that a new user gets.
abbrev pub role_of : Role → String
role_of role_moderator = "ROLE_MODERATOR"
role_of role_user = "ROLE_USER"
role_of (role_other n) = "ROLE_USER"

module _ (services : Services) where
  open services use {World}

  -- The token of the response.
  unfoldable pub register : RegisterRequest → Action World String
  register req = do
    require (not (is_empty req.email || is_empty req.password))
        (status invalid_argument "email and password are required")
    hash ← or_fail (statusf internal "error for password") (services.hash_password req.password)
    id ←
        or_fail (λ _. status already_exists "email already registered")
          (services.create_user
            (record { id = 0; email = req.email; password = hash; role = role_of req.role }))
    or_fail (statusf internal "error for token") (services.sign_token id (role_of req.role))

  unfoldable pub login : String → String → Action World String
  login email password = do
    require (not (is_empty email || is_empty password))
        (status invalid_argument "email and password are required")
    user ← or_fail (statusf not_found "") (services.get_by_email email)
    require (services.check_password user.password password)
        (status unauthenticated "invalid credentials")
    or_fail (statusf internal "error for token") (services.sign_token user.id user.role)
