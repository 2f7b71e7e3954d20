-- ===== src/Subscription/Strokes.antt =====
-- Identifiers written as strokes, one more than the number, for examples.
use progetto_sdcc.Prelude.{ℕ, zero, suc, ◌≡◌, refl, ap, String, some}
use progetto_sdcc.Gallery.Query.{Uuids}
use progetto_sdcc.Subscription.Memberships.{WritesUuids}

abbrev strokes : String → ℕ
strokes String.[] = 0
strokes (String.◌∷◌ c s) = suc (strokes s)

abbrev pub tally : ℕ → String
tally zero = ""
tally (suc n) = String.◌∷◌ "I" (tally n)

strokes-tally : (n : ℕ) → strokes (tally n) ≡ n
strokes-tally zero = refl
strokes-tally (suc n) = ap suc (strokes-tally n)

abbrev behind_first : String → ℕ
behind_first String.[] = 0
behind_first (String.◌∷◌ c s) = strokes s

abbrev pub uuids : Uuids
uuids = record { parse = λ s. some (behind_first s); text = λ n. tally (suc n) }

pub uuids-WritesUuids : WritesUuids uuids
uuids-WritesUuids = record { parse-text = λ n. ap some (strokes-tally n); not_empty = λ n. refl }
