-- ===== src/LoadTest/Statistics.antt =====
-- computeStats and report of cmd/testgallery/main.go, which cmd/testupload/main.go has word for word.
-- The index of a percentile, which the code computes with floating point numbers, is a parameter.
pub mod Bounds
use progetto_sdcc.Prelude.{
  ℕ, zero, suc, ◌+◌, ◌-◌, ◌/◌, String, Bool, true, false, Option, none, some, List, [], ◌∷◌, leb,
  length, if◌then◌else◌,
}
use progetto_sdcc.LoadTest.{OpResult}

-- `int(p * float64(n))`, for a percentage and a number.
abbrev pub Index : Type 0
Index = ℕ → ℕ → ℕ

-- `slices.Sort`
unfoldable pub insert_latency : ℕ → List ℕ → List ℕ
insert_latency x [] = x ∷ []
insert_latency x (y ∷ ys) =
    let rest = insert_latency x ys in if leb x y then x ∷ y ∷ ys else y ∷ rest

unfoldable pub sort_latencies : List ℕ → List ℕ
sort_latencies [] = []
sort_latencies (x ∷ xs) = insert_latency x (sort_latencies xs)

-- The loop over the results: latencies, sum and errors.
abbrev pub latencies_of : List OpResult → List ℕ
latencies_of [] = []
latencies_of (r ∷ rs) = r.latency ∷ latencies_of rs

abbrev pub total : List ℕ → ℕ
total [] = 0
total (x ∷ xs) = x + total xs

abbrev pub errors_of : List OpResult → ℕ
errors_of [] = 0
errors_of (r ∷ rs) = if r.succeeded then errors_of rs else suc (errors_of rs)

-- An element of a list that is long enough.
abbrev pub at : ℕ → List ℕ → ℕ
at i [] = 0
at zero (x ∷ xs) = x
at (suc i) (x ∷ xs) = at i xs

pub record OpStats : Type 0 where
  pub op : String
  pub count : ℕ
  pub errors : ℕ
  pub minimum : ℕ
  pub mean : ℕ
  pub p50 : ℕ
  pub p95 : ℕ
  pub p99 : ℕ
  pub maximum : ℕ

abbrev pub mean_of : List OpResult → ℕ
mean_of [] = 0
mean_of (r ∷ rs) = total (latencies_of (r ∷ rs)) / length (r ∷ rs)

abbrev pub first_of : List ℕ → ℕ
first_of [] = 0
first_of (x ∷ xs) = x

abbrev pub last_of : List ℕ → ℕ
last_of [] = 0
last_of (x ∷ xs) = at (length xs) (x ∷ xs)

module _ (index : Index) where
  -- `pct`
  abbrev pub percentile : ℕ → List ℕ → ℕ
  percentile p [] = 0
  percentile p (x ∷ xs) = at (index p (length xs)) (x ∷ xs)

  unfoldable pub compute_stats : String → List OpResult → OpStats
  compute_stats op results =
      let latencies = sort_latencies (latencies_of results) in
      record {
        op = op;
        count = length results;
        errors = errors_of results;
        minimum = first_of latencies;
        mean = mean_of results;
        p50 = percentile 50 latencies;
        p95 = percentile 95 latencies;
        p99 = percentile 99 latencies;
        maximum = last_of latencies;
      }
