-- ===== src/Gallery/Database/MembershipTests.antt =====
-- A database in which gallery 2 is fixed and user 5 is its member or is not.
use progetto_sdcc.Prelude.{
  ℕ, ◌≡◌, refl, ap, fun_ext, Bool, true, false, ◌&&◌, Option, none, some, List, [], ◌∷◌, arith,
  plain, Result, ok, err, is_ok, ◌==◌, if◌then◌else◌, inl, inr, Bool-cases, contains,
}
use progetto_sdcc.Gallery.{Gallery, Member, gallery_open}
use progetto_sdcc.Gallery.Query as Query
use progetto_sdcc.Gallery.Query.{Uuids}
use progetto_sdcc.Gallery.Command.{State, joins, execute}
use progetto_sdcc.Gallery.Command.Tables.{Tables, set_member}
use progetto_sdcc.Gallery.Database.{Db}
use progetto_sdcc.Gallery.Database.Commands.{command_repository, join_gallery, get_gallery}
use progetto_sdcc.Gallery.Database.Queries.{query_repository}
use progetto_sdcc.Gallery.Database.Meaning.{WriteLaws, ReadLaws, joined_rows, limited, behind}
use progetto_sdcc.Gallery.Database.Invariant.{Consistent}
use progetto_sdcc.Gallery.Database.Answers.{is_member-tables}
use progetto_sdcc.Gallery.Database.Memberships.{resolved, resolved-execute}
use progetto_sdcc.Subscription.Strokes.{uuids, uuids-WritesUuids}

abbrev checked : ℕ → Option Gallery → Result Gallery
checked id none = err (plain "record not found")
checked id (some g) = if g.id == id then ok g else err (plain "corrupt")

abbrev sea : Gallery
sea = record {
  id = 2;
  name = "sea";
  description = "";
  gallery_status = gallery_open;
  moderator_id = 9;
  created_at = 1;
  updated_at = 1;
}

abbrev sea_tables : Bool → Tables
sea_tables b = record {
  galleries = λ id. if id == 2 then some sea else none;
  members = λ id user. if (id == 2) && (user == 5) then b else false;
}

abbrev is_five : ℕ → ℕ → Bool
is_five id user = (id == 2) && (user == 5)

abbrev put_five : Bool → ℕ → ℕ → Bool → Result (Unit {0}) × Bool
put_five b id user old = if is_five id user then (ok tt, b) else (err (plain "refused"), old)

abbrev five : Bool → ℕ → ℕ → List Member
five b id user =
    if is_five id user && b then record { gallery_id = 2; user_id = 5; joined_at = 0 } ∷ [] else []

abbrev present : ℕ → Option Gallery
present id = if id == 2 then some sea else none

-- The member is in the state.
abbrev pub small : Db
small = record {
  World = Bool;
  create_gallery = λ g b. (err (plain "refused"), b);
  save_gallery = λ g b. (err (plain "refused"), b);
  delete_gallery = λ id b. (err (plain "refused"), b);
  create_member = λ m b. put_five true m.gallery_id m.user_id b;
  delete_member = λ id user b. put_five false id user b;
  first_gallery = λ id b. checked id (present id);
  first_with_member =
      λ user id b. if id == 2 then ok (sea, five b id user) else err (plain "record not found");
  find_galleries = λ after limit b. ok (limited limit (behind after (sea ∷ [])));
  find_joined = λ user after limit b. ok (
      limited limit (behind after (joined_rows (λ id. (sea_tables b).members id user) (sea ∷ []))));
  find_members = λ id b. ok (five b id 5);
  count_galleries = λ id b. ok (if id == 2 then 1 else 0);
  now = λ b. 1;
  new_uuid = λ b. (1, b);
}

set_five :
    (b old : Bool) (id user : ℕ)
    → sea_tables (put_five b id user old).1 ≡ (
        if is_ok (put_five b id user old).0
        then set_member id user b (sea_tables old)
        else sea_tables old)
set_five b old id user = elim (Bool-cases (is_five id user)) [
  | inr h ↦ ground arith
  | inl h ↦
      let first : id ≡ 2 = ground arith in
      let second : user ≡ 5 = ground arith in
      rw (first, second)
        (ap {A = ℕ → ℕ → Bool} (λ m. record (sea_tables old) { members = m })
          (fun_ext λ (i : ℕ). fun_ext λ (u : ℕ). ground arith))
]

pub small-WriteLaws : WriteLaws small
small-WriteLaws = record {
  tables = sea_tables;
  created = λ g g' b h. absurd cc;
  not_created = λ g e b h. refl;
  saved = λ g b. refl;
  deleted = λ id b. refl;
  member_created = λ m b. set_five true b m.gallery_id m.user_id;
  member_deleted = λ id user b. set_five false b id user;
  first = λ id g b h. elim (Bool-cases (id == 2)) [
    | inl k ↦ (ground arith, ground arith)
    | inr k ↦ absurd (ground arith)
  ];
  drawn = λ b. refl;
}

pub small-ReadLaws : ReadLaws small small-WriteLaws
unfolding small-WriteLaws
small-ReadLaws = record {
  rows = λ b. sea ∷ [];
  member_rows = λ b id. five b id 5;
  sorted = λ b. tt;
  kept = λ id b. refl;
  found = λ after limit b. refl;
  found_joined = λ user after limit b. refl;
  found_members = λ id b. refl;
  members_kept = λ id user b. ground arith;
  counted_none = λ id b h. ground arith;
  counted_one = λ id g b h. ground arith;
  preloaded = λ id user g b h. elim (Bool-cases (id == 2)) [
    | inr k ↦ absurd (ground arith)
    | inl k ↦ (five b id user, ground arith, ground arith)
  ];
}

sea_tables-Consistent : (b : Bool) → Consistent (sea_tables b)
sea_tables-Consistent b = record {
  named = λ id g e. ground arith;
  not_nil = refl;
  referenced = λ id user m. elim (Bool-cases (id == 2)) [
    | inl k ↦ (sea, ground arith)
    | inr k ↦ absurd (ground arith)
  ];
}

pub small-absent : (small-WriteLaws.tables true).galleries 9 ≡ none
unfolding small-WriteLaws
small-absent = refl

is_member-tables_example :
    Query.is_member uuids (query_repository small true) 2 5 ≡ ok (true, gallery_open)
unfolding small-WriteLaws
is_member-tables_example = is_member-tables small small-WriteLaws small-ReadLaws uuids 2 5 true

abbrev joinable : State (command_repository small)
joinable = record { world = false; events = [] }

joined_five : (execute (command_repository small) (joins 2 5) joinable).0 ≡ ok tt
unfolding execute get_gallery join_gallery
joined_five = refl

resolved-execute_example :
    (l : List ℕ) × (resolved small small-WriteLaws small-ReadLaws uuids uuids-WritesUuids
        (execute (command_repository small) (joins 2 5) joinable).1.world
        5
      ≡ ok l)
    × ((i : ℕ) → contains i l ≡ (if i == 2 then true else (sea_tables false).members i 5))
unfolding small-WriteLaws
resolved-execute_example =
    resolved-execute small small-WriteLaws small-ReadLaws uuids uuids-WritesUuids true 2 5 joinable
      (ground arith) (sea_tables-Consistent false) joined_five
