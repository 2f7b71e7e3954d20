-- ===== src/LoadTest/Galleries/Weights.antt =====
-- How often a member worker picks each operation.
use progetto_sdcc.Prelude.{
  ℕ, zero, suc, ◌+◌, ◌-◌, ◌%◌, ◌≤◌, ◌<◌, ◌≡◌, refl, sym, ap, ◌∙◌, Bool, false, none, some, List, [],
  ◌∷◌, arith, ok, ◌==◌, if◌then◌else◌,
}
use progetto_sdcc.LoadTest.Galleries.{
  word, half_word, Flags, Config, parse_flags, Operation, join_op, leave_op, get_op,
  list_members_op, list_my_op, list_all_op, MemberOp, build_member_ops, total_weight, picked,
}

abbrev number : Operation → ℕ
number join_op = 0
number leave_op = 1
number get_op = 2
number list_members_op = 3
number list_my_op = 4
number list_all_op = 5

abbrev same_op : Operation → Operation → Bool
same_op p q = number p == number q

-- The random number leads to the operation.
abbrev pub picks : Operation → List MemberOp → ℕ → Bool
picks p os r = elim (picked r os) [ none ↦ false | some o ↦ same_op o.run p ]

-- How many numbers below `n` pass a test.
abbrev pub count : (ℕ → Bool) → ℕ → ℕ
count f zero = 0
count f (suc n) = let rest = count f n in if f n then suc rest else rest

count-add : (f : ℕ → Bool) (w n : ℕ) → count f (w + n) ≡ count f w + count (λ r. f (w + r)) n
count-add f w zero = let none : w + 0 ≡ w = omega arith in ap (count f) none ∙ omega arith
count-add f w (suc n) =
    let next : w + suc n ≡ suc (w + n) = omega arith in
    let rest = count-add f w n in ap (count f) next ∙ ground (arith, rest)

count-below :
    (f : ℕ → Bool) (b : Bool) (w : ℕ)
    → ((r : ℕ) → r < w → f r ≡ b)
    → count f w ≡ (if b then w else 0)
count-below f b zero h = ground arith
count-below f b (suc w) h =
    let here = h w (omega arith) in
    let rest = count-below f b w (λ r k. h r (omega (arith, k))) in ground (arith, here, rest)

count-ext : (f g : ℕ → Bool) (n : ℕ) → ((r : ℕ) → f r ≡ g r) → count f n ≡ count g n
count-ext f g zero h = refl
count-ext f g (suc n) h =
    let here = h n in let rest = count-ext f g n h in ground (arith, here, rest)

-- The weights added up without wrapping.
abbrev plain_sum : List MemberOp → ℕ
plain_sum [] = 0
plain_sum (o ∷ os) = o.weight + plain_sum os

-- The weight of an operation.
abbrev weight_of : Operation → List MemberOp → ℕ
weight_of p [] = 0
weight_of p (o ∷ os) = (if same_op o.run p then o.weight else 0) + weight_of p os

picks-first :
    (p : Operation) (o : MemberOp) (os : List MemberOp) (r : ℕ)
    → r < o.weight
    → picks p (o ∷ os) r ≡ same_op o.run p
unfolding picked
picks-first p o os r h = ground arith

picks-later :
    (p : Operation) (o : MemberOp) (os : List MemberOp) (r : ℕ)
    → picks p (o ∷ os) (o.weight + r) ≡ picks p os r
unfolding picked
picks-later p o os r = let left : o.weight + r - o.weight ≡ r = omega arith in ground (arith, left)

count-picks :
    (p : Operation) (os : List MemberOp) → count (picks p os) (plain_sum os) ≡ weight_of p os
count-picks p [] = refl
count-picks p (o ∷ os) =
    count-add (picks p (o ∷ os)) o.weight (plain_sum os)
    ∙ omega (
      arith,
      count-below (picks p (o ∷ os)) (same_op o.run p) o.weight (picks-first p o os),
      count-ext (λ r. picks p (o ∷ os) (o.weight + r)) (picks p os) (plain_sum os)
          (picks-later p o os),
      count-picks p os,
    )

-- What each operation is to get of a hundred.
abbrev pub percentage : Config → Operation → ℕ
percentage cfg join_op = cfg.join_pct
percentage cfg leave_op = cfg.leave_pct
percentage cfg get_op = cfg.get_pct
percentage cfg list_members_op = cfg.list_members_pct
percentage cfg list_my_op = cfg.list_my_pct
percentage cfg list_all_op =
    100 - (cfg.join_pct + cfg.leave_pct + cfg.get_pct + cfg.list_members_pct + cfg.list_my_pct)

-- The percentages that are given, added up without wrapping.
abbrev pub percentages : Config → ℕ
percentages cfg =
    cfg.join_pct + cfg.leave_pct + cfg.get_pct + cfg.list_members_pct + cfg.list_my_pct

small : (n : ℕ) → n < half_word → n % word ≡ n
small n h = omega arith

parse_flags-le :
    (f : Flags) (cfg : Config)
    → parse_flags f ≡ ok cfg
    → percentages cfg < half_word
    → cfg.join_pct + cfg.leave_pct + cfg.get_pct + cfg.list_members_pct + cfg.list_my_pct ≤ 100
unfolding parse_flags
parse_flags-le f cfg h fits = ground (arith, small (percentages cfg) fits)

weight_of-build :
    (cfg : Config) (p : Operation)
    → percentages cfg ≤ 100
    → weight_of p (build_member_ops cfg) ≡ percentage cfg p
unfolding build_member_ops
weight_of-build cfg join_op h = omega arith
weight_of-build cfg leave_op h = omega arith
weight_of-build cfg get_op h = omega arith
weight_of-build cfg list_members_op h = omega arith
weight_of-build cfg list_my_op h = omega arith
weight_of-build cfg list_all_op h = omega arith

total_weight-build :
    (cfg : Config)
    → cfg.join_pct + cfg.leave_pct + cfg.get_pct + cfg.list_members_pct + cfg.list_my_pct ≤ 100
    → (total_weight (build_member_ops cfg) ≡ 100) × (plain_sum (build_member_ops cfg) ≡ 100)
unfolding build_member_ops
total_weight-build cfg h = (omega arith, omega arith)

-- With flags that the program accepts and whose percentages add up within an `int`, the random number of a member worker is drawn below 100, and
-- of the numbers below 100 each operation is picked by as many as its percentage, the listing of
-- all galleries by the rest. So the fallback of the loop is not reached.
pub picks-percentage :
    (f : Flags) (cfg : Config) (p : Operation)
    → parse_flags f ≡ ok cfg
    → percentages cfg < half_word
    → (total_weight (build_member_ops cfg) ≡ 100)
      × (count (picks p (build_member_ops cfg)) 100 ≡ percentage cfg p)
picks-percentage f cfg p h fits =
    let bound = parse_flags-le f cfg h fits in
    let (all, sum) = total_weight-build cfg bound in
    (
      all,
      ap (count (picks p (build_member_ops cfg))) (sym sum)
          ∙ count-picks p (build_member_ops cfg)
          ∙ weight_of-build cfg p bound,
    )
