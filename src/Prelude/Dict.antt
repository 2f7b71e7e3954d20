-- ===== src/Prelude/Dict.antt =====
-- Go maps over UUIDs as association lists. `range` walks the list: as a statement holds of every
-- list, it holds of every order in which Go may walk the map.
use Prim.Native.Nat.{ℕ}
use mathlib.Core.Path.{◌≡◌, refl}
use mathlib.Core.Logic.{◌≢◌}
use mathlib.Core.Bool.{Bool, true, false}
use mathlib.Core.Option.{Option, none, some}
use mathlib.Core.List.{List, [], ◌∷◌}
use native.Mathlib.Omega.{arith}
use progetto_sdcc.Prelude.Tests.{◌==◌, if◌then◌else◌}

abbrev pub Dict {ℓ} : Type ℓ → Type ℓ
Dict V = List (ℕ × V)

module _ {ℓ} {V : Type ℓ} where
  -- `v, ok := m[k]`
  unfoldable pub lookup : ℕ → Dict V → Option V
  lookup k [] = none
  lookup k ((j, v) ∷ d) = if j == k then some v else lookup k d

  -- `_, ok := m[k]`
  abbrev pub has : ℕ → Dict V → Bool
  has k d = elim (lookup k d) [ none ↦ false | some v ↦ true ]

  -- `m[k] = v`
  unfoldable pub insert : ℕ → V → Dict V → Dict V
  insert k v [] = (k, v) ∷ []
  insert k v ((j, w) ∷ d) = if j == k then (k, v) ∷ d else (j, w) ∷ insert k v d

  -- `delete(m, k)`
  unfoldable pub erase : ℕ → Dict V → Dict V
  erase k [] = []
  erase k ((j, w) ∷ d) = let rest = erase k d in if j == k then rest else (j, w) ∷ rest

  pub lookup-insert :
      (j k : ℕ) (v : V) (d : Dict V)
      → lookup j (insert k v d) ≡ (if k == j then some v else lookup j d)
  unfolding lookup insert
  lookup-insert j k v [] = refl
  lookup-insert j k v ((i, w) ∷ d) = ground (arith, lookup-insert j k v d)

  pub insert-ne-nil : (k : ℕ) (v : V) (d : Dict V) → insert k v d ≢ []
  unfolding insert
  insert-ne-nil k v [] e = cc
  insert-ne-nil k v ((j, w) ∷ d) e = ground arith

  pub lookup-erase :
      (j k : ℕ) (d : Dict V) → lookup j (erase k d) ≡ (if k == j then none else lookup j d)
  unfolding lookup erase
  lookup-erase j k [] = ground arith
  lookup-erase j k ((i, w) ∷ d) = ground (arith, lookup-erase j k d)

  abbrev pub is_nil : Dict V → Bool
  is_nil [] = true
  is_nil (x ∷ d) = false

  -- What `range` yields: each key once, with its value.
  unfoldable pub entries : Dict V → Dict V
  unfolding erase
  entries [] = []
  entries ((k, v) ∷ d) = (k, v) ∷ erase k (entries d)

  pub lookup-entries : (j : ℕ) (d : Dict V) → lookup j (entries d) ≡ lookup j d
  unfolding lookup entries
  lookup-entries j [] = refl
  lookup-entries j ((k, v) ∷ d) = ground (arith, lookup-erase j k (entries d), lookup-entries j d)

  -- No key occurs twice.
  abbrev pub Distinct : Dict V → Type ℓ
  Distinct [] = Unit
  Distinct ((k, v) ∷ d) = (lookup k d ≡ none) × Distinct d

  erase-Distinct : (k : ℕ) (d : Dict V) → Distinct d → Distinct (erase k d)
  unfolding erase
  erase-Distinct k [] h = tt
  erase-Distinct k ((j, w) ∷ d) h = ground (arith, lookup-erase j k d, erase-Distinct k d h.1)

  pub entries-Distinct : (d : Dict V) → Distinct (entries d)
  unfolding entries
  entries-Distinct [] = tt
  entries-Distinct ((k, v) ∷ d) = (
    ground (arith, lookup-erase k k (entries d)),
    erase-Distinct k (entries d) (entries-Distinct d),
  )

  pub lookup-is_nil : (j : ℕ) (d : Dict V) → is_nil d ≡ true → lookup j d ≡ none
  unfolding lookup
  lookup-is_nil j [] h = refl
  lookup-is_nil j (x ∷ d) h = cc
