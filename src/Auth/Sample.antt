-- ===== src/Auth/Sample.antt =====
-- For examples: tokens that spell their claims in strokes, and a clock that ticks once for each reading.
use Prim.Native.Char.{code}
use Prim.Native.String.append
use progetto_sdcc.Prelude.{
  ℕ, zero, suc, ◌+◌, ◌*◌, ◌/◌, ◌≡◌, refl, subst, ◌∙◌, String, ◌<>◌, true, false, Option, none, some,
  List, [], ◌∷◌, plain, Result, ok, err, arith, ◌==◌, if◌then◌else◌, inl, inr, Option-cases,
  Result-cases, Bool-cases,
}
use progetto_sdcc.Auth.{Jwt, TokenClaims, Method, hmac, other, Parsed}
use progetto_sdcc.Auth.Access.{Laws, expired}

abbrev strokes : ℕ → String → String
strokes zero rest = String.◌∷◌ "." rest
strokes (suc n) rest = String.◌∷◌ "I" (strokes n rest)

abbrev count : ℕ → String → Option (ℕ × String)
count n String.[] = none
count n (String.◌∷◌ c s) = let rest = count (suc n) s in if code c == 73 then rest else some (n, s)

count-strokes : (k n : ℕ) (rest : String) → count k (strokes n rest) ≡ some (k + n, rest)
count-strokes k zero rest = ground arith
count-strokes k (suc n) rest = ground (arith, count-strokes (suc k) n rest)

abbrev expiry : Option ℕ → ℕ
expiry none = 0
expiry (some n) = suc n

abbrev read_expiry : ℕ → Option ℕ
read_expiry zero = none
read_expiry (suc n) = some n

read_expiry-expiry : (e : Option ℕ) → read_expiry (expiry e) ≡ e
read_expiry-expiry none = refl
read_expiry-expiry (some n) = refl

abbrev pub spell : TokenClaims → String
spell c =
    strokes c.claims.user_id (strokes c.issued_at (strokes (expiry c.expires_at) c.claims.role))

abbrev spelled_expiry : ℕ → ℕ → Option (ℕ × String) → Option TokenClaims
spelled_expiry id issued none = none
spelled_expiry id issued (some (e, role)) = some (record {
  claims = record { user_id = id; role = role };
  issued_at = issued;
  expires_at = read_expiry e;
})

abbrev spelled_issue : ℕ → Option (ℕ × String) → Option TokenClaims
spelled_issue id none = none
spelled_issue id (some (issued, s)) = spelled_expiry id issued (count 0 s)

abbrev spelled_user : Option (ℕ × String) → Option TokenClaims
spelled_user none = none
spelled_user (some (id, s)) = spelled_issue id (count 0 s)

abbrev spelled : String → Option TokenClaims
spelled s = spelled_user (count 0 s)

count-strokes_all : (n : ℕ) (rest : String) → count 0 (strokes n rest) ≡ some (n, rest)
count-strokes_all n rest = count-strokes 0 n rest ∙ ground arith

spelled-spell : (c : TokenClaims) → spelled (spell c) ≡ some c
spelled-spell c =
    rw
      (
        count-strokes_all c.claims.user_id
            (strokes c.issued_at (strokes (expiry c.expires_at) c.claims.role)),
        count-strokes_all c.issued_at (strokes (expiry c.expires_at) c.claims.role),
        count-strokes_all (expiry c.expires_at) c.claims.role,
        read_expiry-expiry c.expires_at,
      )
      refl

abbrev checked : ℕ → Option TokenClaims → Result Parsed
checked now none = err (plain "token is malformed")
checked now (some c) =
    if expired now c.expires_at
    then err (plain "token is expired")
    else ok (record { valid = true; claims = some c })

abbrev parse_with : Result String → ℕ → String → Result Parsed
parse_with (err e) now token = err e
parse_with (ok k) now token = checked now (spelled token)

abbrev parse : (Method → Result String) → ℕ → String → Result Parsed
parse key now token = parse_with (key hmac) now token

abbrev contents : Method → String → String → Option TokenClaims
contents hmac key token = spelled token
contents (other a) key token = none

abbrev strip : List String → Result String
strip [] = err (plain "no header")
strip
      (String.◌∷◌ b (
          String.◌∷◌ e
            (String.◌∷◌ a (String.◌∷◌ r (String.◌∷◌ e' (String.◌∷◌ r' (String.◌∷◌ s token))))))
        ∷ rest) =
    ok token
strip (_ ∷ rest) = err (plain "bad scheme")

strip-bearer :
    (token : String) (rest : List String) → strip (("bearer " <> token) ∷ rest) ≡ ok token
strip-bearer token rest =
    rw
      (
        append.cons, append.cons, append.cons, append.cons, append.cons, append.cons, append.cons,
        append.nil,
      )
      refl

ok-injective : {A : Type 0} {a b : A} → ok a ≡ ok b → a ≡ b
ok-injective e = cc

parse-eq_ok :
    (key : Method → Result String) (now : ℕ) (token : String) (p : Parsed)
    → parse key now token ≡ ok p
    → (k : String) × (c : TokenClaims) × (key hmac ≡ ok k)
      × (spelled token ≡ some c)
      × (expired now c.expires_at ≡ false)
      × (p.claims ≡ some c)
parse-eq_ok key now token p e = elim (Result-cases (key hmac)) [
  | inr (x, q) ↦ absurd (ground arith)
  | inl (k, q) ↦ elim (Option-cases (spelled token)) [
    | inl r ↦ absurd (ground arith)
    | inr (c, r) ↦ elim (Bool-cases (expired now c.expires_at)) [
      | inl x ↦ absurd (ground arith)
      | inr x ↦ (k, c, q, r, x, ground arith)
    ]
  ]
]

-- The clock ticks once for each reading.
abbrev pub jwt : Jwt
jwt = record {
  World = ℕ;
  now = λ w. (w, suc w);
  numeric_date = λ t. (t / 1000000000) * 1000000000;
  signed_string = λ key c. ok (spell c);
  parse_with_claims = parse;
  auth_from_md = strip;
}

pub jwt_laws : Laws jwt
jwt_laws = record {
  contents = contents;
  whole_seconds = λ t. (ground arith, ground arith);
  signed = λ key token c e. subst (λ t. spelled t ≡ some c) (ok-injective e) (spelled-spell c);
  genuine = λ key now token p e v.
      let (k, c, has, inside, live, claims) = parse-eq_ok key now token p e in
      (hmac, k, c, has, inside, live, claims);
  accepted = λ key now k token c h e x. rw (h, e, x) refl;
  bearer = strip-bearer;
}
