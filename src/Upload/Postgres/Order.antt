-- ===== src/Upload/Postgres/Order.antt =====
-- Orders of the rows that the clause `uploaded_at DESC` allows: rows of the same time come in any order.
use progetto_sdcc.Prelude.{ℕ, ◌≤◌, ◌<◌, ◌≡◌, refl, ap, List, [], ◌∷◌, arith}
use progetto_sdcc.Upload.Record.{Record}

abbrev pub AtMost : ℕ → List Record → Type 0
AtMost t [] = Unit
AtMost t (r ∷ rs) = (r.uploaded_at ≤ t) × AtMost t rs

abbrev pub Below : ℕ → List Record → Type 0
Below t [] = Unit
Below t (r ∷ rs) = (r.uploaded_at < t) × Below t rs

-- The newest first.
abbrev pub Descending : List Record → Type 0
Descending [] = Unit
Descending (r ∷ rs) = AtMost r.uploaded_at rs × Descending rs

-- The newest first, and no two of the same time.
abbrev pub Falling : List Record → Type 0
Falling [] = Unit
Falling (r ∷ rs) = Below r.uploaded_at rs × Falling rs

-- Taking the row out of the first list leaves the second.
pub data Picked (r : Record) : List Record → List Record → Type 0 where
  here : {rs : List Record} → Picked r (r ∷ rs) rs
  there : {s : Record} {rs ts : List Record} → Picked r rs ts → Picked r (s ∷ rs) (s ∷ ts)

-- The same rows, in another order.
abbrev pub Reordered : List Record → List Record → Type 0
Reordered [] ts = ts ≡ []
Reordered (r ∷ rs) ts = (left : List Record) × Picked r ts left × Reordered rs left

Picked-AtMost :
    {r : Record} {rs ts : List Record} (t : ℕ)
    → Picked r rs ts
    → r.uploaded_at ≤ t
    → AtMost t ts
    → AtMost t rs
Picked-AtMost t here h k = (h, k)
Picked-AtMost t (there p) h (k, ks) = (k, Picked-AtMost t p h ks)

Reordered-AtMost : (t : ℕ) (rs ts : List Record) → Reordered rs ts → AtMost t rs → AtMost t ts
Reordered-AtMost t [] ts e h = rw e tt
Reordered-AtMost t (r ∷ rs) ts (left, p, o) (h, hs) =
    Picked-AtMost t p h (Reordered-AtMost t rs left o hs)

Picked-Below :
    {r : Record} {rs ts : List Record} (t : ℕ) → Picked r rs ts → Below t rs → r.uploaded_at < t
Picked-Below t here (h, hs) = h
Picked-Below t (there p) (h, hs) = Picked-Below t p hs

-- Rows of different times have one such order only.
pub Reordered-Falling :
    (rs ts : List Record) → Reordered rs ts → Descending rs → Falling ts → rs ≡ ts
Reordered-Falling [] ts e d f = rw e refl
Reordered-Falling (r ∷ rs) ts (left, here, o) (d, ds) (f, fs) =
    ap (λ xs. r ∷ xs) (Reordered-Falling rs left o ds fs)
Reordered-Falling (r ∷ rs) (t ∷ ts) (left, there p, o) (d, ds) (f, fs) =
    let newer = Reordered-AtMost r.uploaded_at rs left o d in
    let older = Picked-Below t.uploaded_at p f in absurd (omega (arith, newer.0, older))

pub Reordered-same : (rs : List Record) → Reordered rs rs
Reordered-same [] = refl
Reordered-same (r ∷ rs) = (rs, here, Reordered-same rs)
