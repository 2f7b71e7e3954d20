-- ===== src/Prelude/Action.antt =====
-- Handlers as actions: they read and change a state and return a value or an error. An error leaves
-- the state as it is at that point.
use progetto_sdcc.Prelude.Errors.{Error, Result, ok, err}
use mathlib.Core.Bool.{Bool, true, false}

abbrev pub Action : Type 0 → Type 0 → Type 0
Action S A = S → Result A × S

abbrev pub and_then : {S A B : Type 0} → Result A × S → (A → Action S B) → Result B × S
and_then (ok a, s) f = f a s
and_then (err e, s) f = (err e, s)

infixl 5 ◌>>=◌ ◌>>◌
abbrev pub ◌>>=◌ : {S A B : Type 0} → Action S A → (A → Action S B) → Action S B
◌>>=◌ m f s = and_then (m s) f

abbrev pub ◌>>◌ : {S B : Type 0} → Action S (Unit {0}) → Action S B → Action S B
m >> k = m >>= λ _. k

abbrev pub pure : {S A : Type 0} → A → Action S A
pure a s = (ok a, s)

abbrev pub fail : {S A : Type 0} → Error → Action S A
fail e s = (err e, s)

-- A computation that does not touch the state.
abbrev pub lift : {S A : Type 0} → Result A → Action S A
lift r s = (r, s)

-- `if !b { return e }`
abbrev pub require : {S : Type 0} → Bool → Error → Action S (Unit {0})
require true e s = (ok tt, s)
require false e s = (err e, s)

abbrev pub relabel : {S A : Type 0} → (Error → Error) → Result A × S → Result A × S
relabel handler (ok a, s) = (ok a, s)
relabel handler (err e, s) = (err (handler e), s)

-- `if err != nil { return handler(err) }`
abbrev pub or_fail : {S A : Type 0} → (Error → Error) → Action S A → Action S A
or_fail handler m s = relabel handler (m s)
