-- ===== src/Prelude/Errors.antt =====
-- Go's errors as values: the gRPC status errors of internal/*, the sentinel errors that the code
-- compares against, and errors that other packages return. A format with `%v` or `%w` is kept as
-- its text and its argument.
use Prim.Native.String.{String}
use mathlib.Core.Path.{◌≡◌, refl}
use mathlib.Core.Logic.{◌⊎◌, inl, inr}
use mathlib.Core.Bool.{Bool, true, false}

-- google.golang.org/grpc/codes, those that the services return.
pub data Code : Type 0 where
  invalid_argument not_found already_exists permission_denied : Code
  failed_precondition internal unavailable unauthenticated : Code

pub data Error : Type 0 where
  -- `status.Error(code, text)`
  status : Code → String → Error
  -- `status.Errorf(code, "text: %v", err)`
  statusf : Code → String → Error → Error
  -- `fmt.Errorf("text: %w", err)`
  wrapped : String → Error → Error
  -- `upload.ErrCircuitOpen`
  circuit_open : Error
  -- `io.EOF` and `context.Canceled`
  eof : Error
  canceled : Error
  -- Any other error, by its text.
  plain : String → Error

-- `errors.Is(err, upload.ErrCircuitOpen)`, `errors.Is(err, io.EOF)`: through `%w` and nothing else.
abbrev pub is_circuit_open : Error → Bool
is_circuit_open circuit_open = true
is_circuit_open (wrapped s e) = is_circuit_open e
is_circuit_open _ = false

abbrev pub is_eof : Error → Bool
is_eof eof = true
is_eof (wrapped s e) = is_eof e
is_eof _ = false

-- A pair `(A, error)` of which the caller reads one part.
pub data Result {ℓ} (A : Type ℓ) : Type ℓ where
  err : Error → Result A
  ok : A → Result A

abbrev pub is_ok {ℓ} : {A : Type ℓ} → Result A → Bool
is_ok (ok a) = true
is_ok (err e) = false

pub Result-cases {ℓ} :
    {A : Type ℓ} (r : Result A) → ((a : A) × (r ≡ ok a)) ⊎ ((e : Error) × (r ≡ err e))
Result-cases (ok a) = inl (a, refl)
Result-cases (err e) = inr (e, refl)

-- `if err != nil { return handler(err) }`
abbrev pub on_error {ℓ} : {A : Type ℓ} → (Error → Error) → Result A → Result A
on_error handler (ok a) = ok a
on_error handler (err e) = err (handler e)

-- `if !b { return e }`
abbrev pub guard : Bool → Error → Result (Unit {0})
guard false e = err e
guard true e = ok tt

-- `x, err := r; if err != nil { return err }`, and the rest of the function.
infixl 5 ◌>>=◌
abbrev pub ◌>>=◌ {κ ℓ} : {X : Type κ} {Y : Type ℓ} → Result X → (X → Result Y) → Result Y
err e >>= rest = err e
ok x >>= rest = rest x

infixl 5 ◌>>◌
abbrev pub ◌>>◌ {κ} : {Y : Type κ} → Result (Unit {0}) → Result Y → Result Y
first >> rest = first >>= λ done. rest

-- Where a sequence ends well, its first part does.
pub >>=-eq-ok {κ ℓ} :
    {X : Type κ} {Y : Type ℓ} (r : Result X) (rest : X → Result Y) {y : Y}
    → (r >>= rest) ≡ ok y
    → (x : X) × (r ≡ ok x) × (rest x ≡ ok y)
>>=-eq-ok (err e) rest h = cc
>>=-eq-ok (ok x) rest h = (x, refl, h)
