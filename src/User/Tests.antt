-- ===== src/User/Tests.antt =====
-- Registrations and logins over tokens that spell their claims; a hash is the password itself.
use text.Mathlib.Text.{◌==◌ as str_eq}
use progetto_sdcc.Prelude.{
  ℕ, suc, ◌+◌, ◌≡◌, refl, String, Option, none, some, Result, ok, err, plain, if◌then◌else◌,
}
use progetto_sdcc.Auth.{Jwt, token_ttl}
use progetto_sdcc.Auth.Tokens.{sign_token}
use progetto_sdcc.Auth.Sample.{spell, jwt, jwt_laws}
use progetto_sdcc.User.Database as Database
use progetto_sdcc.User.Database.{Backend, hash_password, check_password, create_user, get_by_email}
use progetto_sdcc.User.Accepted.{Accepted, login-Accepted, register-Accepted}
use progetto_sdcc.User.{User, RegisterRequest, role_user, role_moderator, register, login}
use progetto_sdcc.Auth.Access as Access

-- Over the tokens of Auth.Sample with a table of one row: the time, and the row.
abbrev slot_jwt : Jwt
slot_jwt = record jwt { World = ℕ × Option User; now = λ (t, row). (t, (suc t, row)) }

abbrev row_of : Option User → String → Option User
row_of none email = none
row_of (some u) email = if str_eq email u.email then some u else none

abbrev look : Option User → Result User
look none = err (plain "record not found")
look (some u) = ok u

abbrev insert : User → ℕ × Option User → Result User × (ℕ × Option User)
insert u (t, none) = (ok (record u { id = 7 }), (t, some (record u { id = 7 })))
insert u (t, some v) = (err (plain "duplicate key"), (t, some v))

abbrev slot : Backend slot_jwt
slot = record {
  create = insert;
  first_by_email = λ email (t, row). look (row_of row email);
  generate_from_password = λ p w. (ok p, w);
  compare_hash_and_password = λ h p. if str_eq h p then ok tt else err (plain "mismatch");
}

abbrev ada : RegisterRequest
ada = record { email = "ada@x.org"; password = "secret"; role = role_moderator }

abbrev adas_ticket : String
adas_ticket = spell (record {
  claims = record { user_id = 7; role = "ROLE_MODERATOR" };
  issued_at = jwt.numeric_date 6;
  expires_at = some (jwt.numeric_date (5 + token_ttl));
})

-- Over the tokens of Auth.Sample: user 7 is Bob, whose hash is his password.
abbrev bob : User
bob = record { id = 7; email = "bob@x.org"; password = "secret"; role = "ROLE_USER" }

abbrev backend : Backend jwt
backend = record {
  create = λ u w. (ok (record u { id = 7 }), suc w);
  first_by_email = λ email w. if str_eq email "bob@x.org" then ok bob else err (plain "not found");
  generate_from_password = λ p w. (ok p, suc w);
  compare_hash_and_password = λ h p. if str_eq h p then ok tt else err (plain "mismatch");
}

abbrev ticket : ℕ → String
ticket now = spell (record {
  claims = record { user_id = 7; role = "ROLE_USER" };
  issued_at = jwt.numeric_date (suc now);
  expires_at = some (jwt.numeric_date (now + token_ttl));
})

bob_in : (login (Database.services jwt "key" backend) "bob@x.org" "secret" 5).0 ≡ ok (ticket 5)
unfolding login get_by_email check_password sign_token
bob_in = refl

login-Accepted_example :
    (u : User) × (backend.first_by_email "bob@x.org" 5 ≡ ok u)
    × (backend.compare_hash_and_password u.password "secret" ≡ ok tt)
    × Accepted jwt "key" jwt_laws (ticket 5) u.id u.role 5
login-Accepted_example =
    login-Accepted jwt "key" jwt_laws backend "bob@x.org" "secret" (ticket 5) 5 bob_in

abbrev bobs_request : RegisterRequest
bobs_request = record { email = "bob@x.org"; password = "secret"; role = role_user }

bob_registered : (register (Database.services jwt "key" backend) bobs_request 5).0 ≡ ok (ticket 7)
unfolding register hash_password create_user sign_token
bob_registered = refl

register-Accepted_example :
    (hash : String) × (u : User) × ((backend.generate_from_password "secret" 5).0 ≡ ok hash)
    × ((backend.create
          (record { id = 0; email = "bob@x.org"; password = hash; role = "ROLE_USER" })
          6).0
        ≡ ok u)
    × Accepted jwt "key" jwt_laws (ticket 7) u.id "ROLE_USER" 7
register-Accepted_example =
    register-Accepted jwt "key" jwt_laws backend bobs_request (ticket 7) 5 bob_registered
