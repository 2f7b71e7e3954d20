-- ===== src/LoadTest/Galleries.antt =====
-- cmd/testgallery/main.go: the flags of the load on the gallery service, and how an operation is
-- picked.
pub mod Weights
pub mod Workers
pub mod Schedule
use progetto_sdcc.Prelude.{
  ℕ, zero, suc, ◌+◌, ◌*◌, ◌%◌, ◌&&◌, ◌-◌, String, ◌<>◌, Bool, true, false, ◌||◌, Option, none, some,
  List, [], ◌∷◌, ◌++◌, Error, plain, Result, ok, err, ◌==◌, ltb, leb, if◌then◌else◌, is_empty, not,
  length,
}
use progetto_sdcc.Prelude.Int.{ℤ, pos, negsuc}
use progetto_sdcc.LoadTest.{OpResult}
use progetto_sdcc.LoadTest.Client.{
  HttpClient, Request, Response, GalleryResponse, bearer, as_json, outcome, timed_request,
  timed_list_galleries,
}

-- The flags, of which any integer may arrive. `interval` and `duration` are nanoseconds.
pub record Flags : Type 0 where
  pub moderators : ℤ
  pub members : ℤ
  pub duration : ℤ
  pub create_interval : ℤ
  pub join_pct : ℤ
  pub leave_pct : ℤ
  pub get_pct : ℤ
  pub list_members_pct : ℤ
  pub list_my_pct : ℤ

pub record Config : Type 0 where
  pub moderators : ℕ
  pub members : ℕ
  pub duration : ℤ
  pub create_interval : ℤ
  pub join_pct : ℕ
  pub leave_pct : ℕ
  pub get_pct : ℕ
  pub list_members_pct : ℕ
  pub list_my_pct : ℕ

abbrev pub negative : ℤ → Bool
negative (pos n) = false
negative (negsuc n) = true

-- A number that is not negative.
abbrev pub size : ℤ → ℕ
size (pos n) = n
size (negsuc n) = 0

abbrev checked : Bool → Error → Config → Result Config
checked true e c = err e
checked false e c = ok c

-- An `int` has 64 bits; in two's complement the words from `half_word` on are the negative numbers.
abbrev pub word : ℕ
word = 18446744073709551616

abbrev pub half_word : ℕ
half_word = 9223372036854775808

-- The sum is one of `int`s and wraps. A flag that is negative makes the test true whatever the sum
-- is, so the sum is taken of sizes.
unfoldable pub parse_flags : Flags → Result Config
parse_flags f =
    let total =
      size f.join_pct
      + size f.leave_pct
      + size f.get_pct
      + size f.list_members_pct
      + size f.list_my_pct in
    let wrong =
      (ltb 100 (total % word) && ltb (total % word) half_word)
      || negative f.join_pct
      || negative f.leave_pct
      || negative f.get_pct
      || negative f.list_members_pct
      || negative f.list_my_pct in
    let few = ltb (size f.moderators) 1 || ltb (size f.members) 1 in
    let config : Config = record {
      moderators = size f.moderators;
      members = size f.members;
      duration = f.duration;
      create_interval = f.create_interval;
      join_pct = size f.join_pct;
      leave_pct = size f.leave_pct;
      get_pct = size f.get_pct;
      list_members_pct = size f.list_members_pct;
      list_my_pct = size f.list_my_pct;
    } in
    if wrong
    then err (plain "percentages must each be >= 0 and sum to <= 100")
    else checked few (plain "-moderators and -members must each be at least 1") config

-- The operations of a member worker: the name and what to run.
pub data Operation : Type 0 where
  join_op leave_op get_op list_members_op list_my_op list_all_op : Operation

-- `memberOp`
pub record MemberOp : Type 0 where
  pub weight : ℕ
  pub run : Operation

-- The last weight is a difference of `int`s, in two's complement.
unfoldable pub build_member_ops : Config → List MemberOp
build_member_ops cfg =
    let rest =
      (100
        + 5 * word
        - cfg.join_pct
        - cfg.leave_pct
        - cfg.get_pct
        - cfg.list_members_pct
        - cfg.list_my_pct)
      % word in
    record { weight = cfg.join_pct; run = join_op }
    ∷ record { weight = cfg.leave_pct; run = leave_op }
    ∷ record { weight = cfg.get_pct; run = get_op }
    ∷ record { weight = cfg.list_members_pct; run = list_members_op }
    ∷ record { weight = cfg.list_my_pct; run = list_my_op }
    ∷ record { weight = rest; run = list_all_op }
    ∷ []

-- The first loop of pickMemberOp, whose sum wraps.
abbrev pub total_weight : List MemberOp → ℕ
total_weight [] = 0
total_weight (o ∷ os) = (o.weight + total_weight os) % word

-- The second loop, for a random number; none where it leads to the fallback. A weight that is negative
-- as an `int` is the last one of accepted flags at most, and then the others add up to more than the
-- random number, so that it is not compared.
unfoldable pub picked : ℕ → List MemberOp → Option MemberOp
picked r [] = none
picked r (o ∷ os) = let rest = picked (r - o.weight) os in if ltb r o.weight then some o else rest

abbrev pub last_op : MemberOp → List MemberOp → MemberOp
last_op o [] = o
last_op o (p ∷ os) = last_op p os

abbrev pub or_last : MemberOp → List MemberOp → Option MemberOp → MemberOp
or_last o os none = last_op o os
or_last o os (some p) = p

-- An element by its index.
abbrev pub element : ℕ → List String → Option String
element i [] = none
element zero (x ∷ xs) = some x
element (suc i) (x ∷ xs) = element i xs
