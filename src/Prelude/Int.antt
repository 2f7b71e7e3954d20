-- ===== src/Prelude/Int.antt =====
-- Go's signed integers, as far as the services look at one: its sign and its value above zero.
use Prim.Native.Nat.{ℕ}
use mathlib.Core.Bool.{Bool, false}
use progetto_sdcc.Prelude.Tests.{ltb}

-- `negsuc n` is -(n + 1).
pub data ℤ : Type 0 where
  pos : ℕ → ℤ
  negsuc : ℕ → ℤ

-- `z > n` for a constant `n` that is not negative.
abbrev pub exceeds : ℤ → ℕ → Bool
exceeds (pos m) n = ltb n m
exceeds (negsuc m) n = false
