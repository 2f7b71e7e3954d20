-- ===== src/LoadTest/Report/Counted.antt =====
-- What a report counts.
use text.Mathlib.Text.{◌==◌ as str_eq}
use text.Mathlib.TextEquality.{eq_iff}
use text.Mathlib.TextPositions.{eq_refl}
use progetto_sdcc.Prelude.{
  ℕ, ◌+◌, ◌≡◌, refl, ap, ◌∙◌, String, Bool, true, false, List, [], ◌∷◌, ◌++◌, map, arith, length,
  length-append, inl, inr, Bool-cases, not, ◌&&◌,
}
use progetto_sdcc.LoadTest.{OpResult}
use progetto_sdcc.LoadTest.Statistics.{Index, OpStats, compute_stats, errors_of}
use progetto_sdcc.LoadTest.Report.{
  Groups, group_of, add_result, group_results, insert_name, sort_names, names_of, report,
}

-- A number for each list of results that is added up over lists.
pub record Additive (f : List OpResult → ℕ) : Type 0 where
  pub none : f [] ≡ 0
  pub append : (xs ys : List OpResult) → f (xs ++ ys) ≡ f xs + f ys

module _ (f : List OpResult → ℕ) (additive : Additive f) where
  abbrev over : Groups → ℕ
  over [] = 0
  over ((name, rs) ∷ gs) = f rs + over gs

  over-add_result : (r : OpResult) (gs : Groups) → over (add_result r gs) ≡ f (r ∷ []) + over gs
  unfolding add_result
  over-add_result r [] = refl
  over-add_result r ((name, rs) ∷ gs) = elim (Bool-cases (str_eq name r.op)) [
    | inl e ↦ rw e (omega (arith, additive.append rs (r ∷ [])))
    | inr e ↦ rw e (omega (arith, over-add_result r gs))
  ]

  over-group_results :
      (rs : List OpResult) (gs : Groups) → over (group_results rs gs) ≡ f rs + over gs
  unfolding group_results
  over-group_results [] gs = omega (arith, additive.none)
  over-group_results (r ∷ rs) gs = omega (
    arith,
    over-group_results rs (add_result r gs),
    over-add_result r gs,
    additive.append (r ∷ []) rs,
  )

-- The name is not that of a group.
abbrev absent : String → Groups → Bool
absent n [] = true
absent n ((m, rs) ∷ gs) = not (str_eq m n) && absent n gs

abbrev DistinctNames : Groups → Type 0
DistinctNames [] = Unit
DistinctNames ((n, rs) ∷ gs) = (absent n gs ≡ true) × DistinctNames gs

str_eq_symm : (s t : String) → str_eq s t ≡ false → str_eq t s ≡ false
str_eq_symm s t h = elim (Bool-cases (str_eq t s)) [
  | inr e ↦ e
  | inl e ↦
      let same : t ≡ s = (eq_iff t s).0 e in
      absurd (ground (arith, eq_refl t, ap (λ u. str_eq u t) same))
]

absent-add_result :
    (n : String) (r : OpResult) (gs : Groups)
    → absent n gs ≡ true
    → str_eq r.op n ≡ false
    → absent n (add_result r gs) ≡ true
unfolding add_result
absent-add_result n r [] h k = ground arith
absent-add_result n r ((m, rs) ∷ gs) h k = elim (Bool-cases (str_eq m r.op)) [
  | inl e ↦ rw e h
  | inr e ↦ rw e (ground (arith, absent-add_result n r gs (ground arith) k))
]

add_result-DistinctNames :
    (r : OpResult) (gs : Groups) → DistinctNames gs → DistinctNames (add_result r gs)
unfolding add_result
add_result-DistinctNames r [] d = (refl, tt)
add_result-DistinctNames r ((m, rs) ∷ gs) d = elim (Bool-cases (str_eq m r.op)) [
  | inl e ↦ rw e d
  | inr e ↦
      rw e (absent-add_result m r gs d.0 (str_eq_symm m r.op e), add_result-DistinctNames r gs d.1)
]

group_results-DistinctNames :
    (rs : List OpResult) (gs : Groups) → DistinctNames gs → DistinctNames (group_results rs gs)
unfolding group_results
group_results-DistinctNames [] gs d = d
group_results-DistinctNames (r ∷ rs) gs d =
    group_results-DistinctNames rs (add_result r gs) (add_result-DistinctNames r gs d)

abbrev pub sum : {A : Type 0} → (A → ℕ) → List A → ℕ
sum f [] = 0
sum f (x ∷ xs) = f x + sum f xs

sum-insert_name :
    (g : String → ℕ) (x : String) (xs : List String) → sum g (insert_name x xs) ≡ g x + sum g xs
unfolding insert_name
sum-insert_name g x [] = refl
sum-insert_name g x (y ∷ ys) = ground (arith, sum-insert_name g x ys)

sum-sort_names : (g : String → ℕ) (xs : List String) → sum g (sort_names xs) ≡ sum g xs
unfolding sort_names
sum-sort_names g [] = refl
sum-sort_names g (x ∷ xs) = omega (arith, sum-insert_name g x (sort_names xs), sum-sort_names g xs)

sum-map :
    {A B : Type 0} (g : B → ℕ) (h : A → B) (xs : List A) → sum g (map h xs) ≡ sum (λ x. g (h x)) xs
sum-map g h [] = refl
sum-map g h (x ∷ xs) = ap (λ n. g (h x) + n) (sum-map g h xs)

module _ (f : List OpResult → ℕ) (additive : Additive f) where
  sum-skip :
      (m : String) (rs : List OpResult) (all gs : Groups)
      → absent m gs ≡ true
      → sum (λ n. f (group_of n ((m, rs) ∷ all))) (names_of gs)
        ≡ sum (λ n. f (group_of n all)) (names_of gs)
  sum-skip m rs all [] h = refl
  sum-skip m rs all ((n, ss) ∷ gs) h =
      let apart : str_eq m n ≡ false = str_eq_symm n m (ground arith) in
      let rest = sum-skip m rs all gs (ground arith) in ground (arith, apart, rest)

  sum-groups :
      (gs : Groups)
      → DistinctNames gs
      → sum (λ n. f (group_of n gs)) (names_of gs) ≡ over f additive gs
  sum-groups [] d = refl
  sum-groups ((m, rs) ∷ gs) d =
      let same = eq_refl m in
      let skipped = sum-skip m rs gs gs d.0 in
      let rest = sum-groups gs d.1 in ground (arith, same, skipped, rest)

  sum-report :
      (rs : List OpResult)
      → let grouped = group_results rs [] in
        sum (λ n. f (group_of n grouped)) (sort_names (names_of grouped)) ≡ f rs
  sum-report rs =
      let grouped = group_results rs [] in
      let sorted = sum-sort_names (λ n. f (group_of n grouped)) (names_of grouped) in
      let groups = sum-groups grouped (group_results-DistinctNames rs [] tt) in
      omega (arith, sorted, groups, over-group_results f additive rs [])

errors_of-append : (xs ys : List OpResult) → errors_of (xs ++ ys) ≡ errors_of xs + errors_of ys
errors_of-append [] ys = omega arith
errors_of-append (r ∷ xs) ys = ground (arith, errors_of-append xs ys)

-- A report loses no result: the counts of its operations add up to the number of results, and their
-- errors to the number of results that did not succeed.
pub report-counted :
    (index : Index) (rs : List OpResult)
    → (sum (λ (s : OpStats). s.count) (report index rs) ≡ length rs)
      × (sum (λ (s : OpStats). s.errors) (report index rs) ≡ errors_of rs)
unfolding report compute_stats
report-counted index rs =
    let grouped = group_results rs [] in
    let stats : String → OpStats = λ op. compute_stats index op (group_of op grouped) in
    let names = sort_names (names_of grouped) in
    (
      sum-map (λ s. s.count) stats names
          ∙ sum-report length (record { none = refl; append = length-append }) rs,
      sum-map (λ s. s.errors) stats names
          ∙ sum-report errors_of (record { none = refl; append = errors_of-append }) rs,
    )
