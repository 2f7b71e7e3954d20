-- ===== src/LoadTest/Statistics/Bounds.antt =====
-- The order of the statistics.
use native.Mathlib.Nat.{le-div_iff_mul-le, div-lt_iff_lt-mul}
use progetto_sdcc.Prelude.{
  ℕ, zero, suc, ◌+◌, ◌*◌, ◌/◌, ◌≤◌, ◌<◌, ◌≡◌, refl, subst, ◌∙◌, String, List, [], ◌∷◌, arith, leb,
  length, inl, inr, Bool-cases,
}
use progetto_sdcc.LoadTest.{OpResult}
use progetto_sdcc.LoadTest.Statistics.{
  Index, insert_latency, sort_latencies, latencies_of, total, errors_of, at, first_of, last_of,
  percentile, mean_of, compute_stats,
}

-- What floating point numbers promise of a percentage of a number: it grows with the percentage, and
-- is not above the number.
pub record Rounds (index : Index) : Type 0 where
  pub grows : (p q n : ℕ) → p ≤ q → index p n ≤ index q n
  pub within : (p n : ℕ) → p ≤ 100 → index p n ≤ n

-- From `a` on, in ascending order.
abbrev Rising : ℕ → List ℕ → Type 0
Rising a [] = Unit
Rising a (x ∷ xs) = (a ≤ x) × Rising x xs

Rising-le : (a b : ℕ) (xs : List ℕ) → Rising b xs → a ≤ b → Rising a xs
Rising-le a b [] s h = tt
Rising-le a b (x ∷ xs) s h = (omega (arith, s.0), s.1)

insert_latency-Rising :
    (a x : ℕ) (xs : List ℕ) → Rising a xs → a ≤ x → Rising a (insert_latency x xs)
unfolding insert_latency
insert_latency-Rising a x [] s h = (h, tt)
insert_latency-Rising a x (y ∷ ys) s h = elim (Bool-cases (leb x y)) [
  | inl e ↦ rw e (h, (ground arith, s.1))
  | inr e ↦ rw e (s.0, insert_latency-Rising y x ys s.1 (ground arith))
]

sort_latencies-Rising : (xs : List ℕ) → Rising 0 (sort_latencies xs)
unfolding sort_latencies
sort_latencies-Rising [] = tt
sort_latencies-Rising (x ∷ xs) =
    insert_latency-Rising 0 x (sort_latencies xs) (sort_latencies-Rising xs) (omega arith)

length-insert_latency : (x : ℕ) (xs : List ℕ) → length (insert_latency x xs) ≡ suc (length xs)
unfolding insert_latency
length-insert_latency x [] = refl
length-insert_latency x (y ∷ ys) = ground (arith, length-insert_latency x ys)

total-insert_latency : (x : ℕ) (xs : List ℕ) → total (insert_latency x xs) ≡ x + total xs
unfolding insert_latency
total-insert_latency x [] = refl
total-insert_latency x (y ∷ ys) = ground (arith, total-insert_latency x ys)

length-sort_latencies : (xs : List ℕ) → length (sort_latencies xs) ≡ length xs
unfolding sort_latencies
length-sort_latencies [] = refl
length-sort_latencies (x ∷ xs) =
    omega (arith, length-insert_latency x (sort_latencies xs), length-sort_latencies xs)

total-sort_latencies : (xs : List ℕ) → total (sort_latencies xs) ≡ total xs
unfolding sort_latencies
total-sort_latencies [] = refl
total-sort_latencies (x ∷ xs) =
    omega (arith, total-insert_latency x (sort_latencies xs), total-sort_latencies xs)

at_from : (a i : ℕ) (xs : List ℕ) → Rising a xs → i < length xs → a ≤ at i xs
at_from a i [] s h = absurd (omega arith)
at_from a zero (x ∷ xs) s h = s.0
at_from a (suc i) (x ∷ xs) s h = omega (arith, s.0, at_from x i xs s.1 (omega arith))

at_mono : (a i j : ℕ) (xs : List ℕ) → Rising a xs → i ≤ j → j < length xs → at i xs ≤ at j xs
at_mono a i j [] s h k = absurd (omega arith)
at_mono a zero zero (x ∷ xs) s h k = omega arith
at_mono a (suc i) zero (x ∷ xs) s h k = absurd (omega arith)
at_mono a zero (suc j) (x ∷ xs) s h k = at_from x j xs s.1 (omega arith)
at_mono a (suc i) (suc j) (x ∷ xs) s h k = at_mono x i j xs s.1 (omega arith) (omega arith)

total_from : (a : ℕ) (xs : List ℕ) → Rising a xs → length xs * a ≤ total xs
total_from a [] s = omega arith
total_from a (x ∷ xs) s =
    let rest = total_from a xs (Rising-le a x xs s.1 s.0) in omega (arith, s.0, rest)

total_upto :
    (b : ℕ) (xs : List ℕ) → ((i : ℕ) → i < length xs → at i xs ≤ b) → total xs ≤ length xs * b
total_upto b [] h = omega arith
total_upto b (x ∷ xs) h =
    let rest = total_upto b xs (λ i k. h (suc i) (omega (arith, k))) in
    let here : x ≤ b = h 0 (omega arith) in omega (arith, here, rest)

mean_bounds :
    (lo hi n t : ℕ) → suc n * lo ≤ t → t ≤ suc n * hi → (lo ≤ t / suc n) × (t / suc n ≤ hi)
mean_bounds lo hi n t h k =
    let positive : 0 < suc n = omega arith in
    let above : lo * suc n ≤ t = omega arith in
    let below : t < suc hi * suc n = omega arith in
    let least : t / suc n < suc hi = (div-lt_iff_lt-mul positive).1 below in
    ((le-div_iff_mul-le positive).1 above, omega (arith, least))

length-latencies_of : (rs : List OpResult) → length (latencies_of rs) ≡ length rs
length-latencies_of [] = refl
length-latencies_of (r ∷ rs) = omega (arith, length-latencies_of rs)

errors_of-le : (rs : List OpResult) → errors_of rs ≤ length rs
errors_of-le [] = omega arith
errors_of-le (r ∷ rs) = ground (arith, errors_of-le rs)

module _ (index : Index) (rounds : Rounds index) where
  -- The statistics of latencies in ascending order.
  abbrev OrderedAs : List ℕ → ℕ → Type 0
  OrderedAs l mean =
      (first_of l ≤ percentile index 50 l)
      × (percentile index 50 l ≤ percentile index 95 l)
      × (percentile index 95 l ≤ percentile index 99 l)
      × (percentile index 99 l ≤ last_of l)
      × (first_of l ≤ mean)
      × (mean ≤ last_of l)

  sorted-OrderedAs :
      (l : List ℕ) (n t : ℕ) → Rising 0 l → length l ≡ suc n → total l ≡ t → OrderedAs l (t / suc n)
  sorted-OrderedAs [] n t s e f = absurd (omega arith)
  sorted-OrderedAs (x ∷ xs) n t s e f =
      let m = length xs in
      let last = at m (x ∷ xs) in
      let whole : Rising x (x ∷ xs) = (omega arith, s.1) in
      let mono : (i j : ℕ) → i ≤ j → j ≤ m → at i (x ∷ xs) ≤ at j (x ∷ xs) =
        λ i j h k. at_mono x i j (x ∷ xs) whole h (omega (arith, k)) in
      let low : suc n * x ≤ t =
        subst (λ k. k * x ≤ t) e (subst (λ y. suc m * x ≤ y) f (total_from x (x ∷ xs) whole)) in
      let high : t ≤ suc n * last =
        subst (λ k. t ≤ k * last) e
          (subst (λ y. y ≤ suc m * last) f
            (total_upto last (x ∷ xs) (λ i h. mono i m (omega (arith, h)) (omega arith)))) in
      let (above, below) = mean_bounds x last n t low high in
      (
        mono 0 (index 50 m) (omega arith) (rounds.within 50 m (omega arith)),
        mono (index 50 m) (index 95 m) (rounds.grows 50 95 m (omega arith))
            (rounds.within 95 m (omega arith)),
        mono (index 95 m) (index 99 m) (rounds.grows 95 99 m (omega arith))
            (rounds.within 99 m (omega arith)),
        mono (index 99 m) m (rounds.within 99 m (omega arith)) (omega arith),
        above,
        below,
      )

  -- Of the same results, the sorted latencies and their mean.
  results-OrderedAs :
      (rs : List OpResult) → OrderedAs (sort_latencies (latencies_of rs)) (mean_of rs)
  unfolding sort_latencies
  results-OrderedAs [] =
      (omega arith, omega arith, omega arith, omega arith, omega arith, omega arith)
  results-OrderedAs (r ∷ rs) =
      let xs = latencies_of (r ∷ rs) in
      sorted-OrderedAs (sort_latencies xs) (length rs) (total xs) (sort_latencies-Rising xs)
        (length-sort_latencies xs ∙ length-latencies_of (r ∷ rs)) (total-sort_latencies xs)

  -- If a percentage of a number grows with the percentage and is not above the number, then the
  -- statistics of any results are in order: the minimum is at most the median, this at most the
  -- 95th and this at most the 99th percentile, this at most the maximum, the mean is between
  -- minimum and maximum, and there are at most as many errors as results.
  pub compute_stats-ordered :
      (op : String) (rs : List OpResult)
      → let s = compute_stats index op rs in
        (s.minimum ≤ s.p50)
        × (s.p50 ≤ s.p95)
        × (s.p95 ≤ s.p99)
        × (s.p99 ≤ s.maximum)
        × (s.minimum ≤ s.mean)
        × (s.mean ≤ s.maximum)
        × (s.errors ≤ s.count)
  unfolding compute_stats
  compute_stats-ordered op rs =
      let (a, b, c, d, e, f) = results-OrderedAs rs in (a, b, c, d, e, f, errors_of-le rs)
