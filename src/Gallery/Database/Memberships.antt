-- ===== src/Gallery/Database/Memberships.antt =====
-- Joining and leaving through the commands, and what a subscription resolves through the queries of
-- the same database.
use progetto_sdcc.Prelude.{
  ℕ, zero, suc, ◌+◌, ◌≤◌, ◌<◌, ◌≡◌, ◌≢◌, sym, ap, ◌∙◌, subst, Bool, true, false, ◌&&◌, Option, none,
  some, List, [], ◌∷◌, map, arith, Result, ok, ◌==◌, ==_iff, if◌then◌else◌, inl, inr, Bool-cases,
  contains, length, take,
}
use progetto_sdcc.Prelude.Int.{pos}
use progetto_sdcc.Gallery.{Gallery}
use progetto_sdcc.Gallery.Query.{Uuids}
use progetto_sdcc.Gallery.Api.{list_galleries_by_member}
use progetto_sdcc.Gallery.Command.{State, Event, Command, joins, leaves, execute}
use progetto_sdcc.Gallery.Command.Tables.{Tables, Laws, Transition, joined, left, set_member}
use progetto_sdcc.Gallery.Command.Transitions.{execute-Executed, failed, performed}
use progetto_sdcc.Gallery.Database.{Db}
use progetto_sdcc.Gallery.Database.Commands.{command_repository}
use progetto_sdcc.Gallery.Database.Queries as Queries
use progetto_sdcc.Gallery.Database.Queries.{query_repository, after_clause, default_limit}
use progetto_sdcc.Gallery.Database.Meaning.{
  WriteLaws, ReadLaws, Sorted, find_row, joined_rows, behind, command_repository-Laws,
}
use progetto_sdcc.Gallery.Database.Invariant.{
  Consistent, set_member-Consistent, unset_member-Consistent,
}
use progetto_sdcc.Subscription.{resolve_memberships}
use progetto_sdcc.Subscription.Memberships.{
  WritesUuids, Ascending, above, ByMember, above-Ascending, resolve_memberships-all,
}

Ascending-of_le : (a b : ℕ) (gs : List Gallery) → Ascending b gs → a ≤ b → Ascending a gs
Ascending-of_le a b [] s h = tt
Ascending-of_le a b (g ∷ gs) s h = (omega (arith, s.0), s.1)

joined_rows-Ascending :
    (member : ℕ → Bool) (a : ℕ) (gs : List Gallery)
    → Ascending a gs
    → Ascending a (joined_rows member gs)
joined_rows-Ascending member a [] s = tt
joined_rows-Ascending member a (g ∷ gs) s =
    let rest = joined_rows-Ascending member g.id gs s.1 in
    elim (Bool-cases (member g.id)) [
      | inl h ↦ rw h (s.0, rest)
      | inr h ↦ rw h (Ascending-of_le a g.id (joined_rows member gs) rest (omega (arith, s.0)))
    ]

abbrev is_there : Option Gallery → Bool
is_there none = false
is_there (some g) = true

contains-joined_rows :
    (member : ℕ → Bool) (id : ℕ) (gs : List Gallery)
    → contains id (map (λ (g : Gallery). g.id) (joined_rows member gs))
      ≡ (member id && is_there (find_row id gs))
contains-joined_rows member id [] = ground arith
contains-joined_rows member id (g ∷ gs) =
    let rest = contains-joined_rows member id gs in
    elim (Bool-cases (id == g.id)) [
      | inl e ↦ ground (arith, (==_iff id g.id).0 e, ap member ((==_iff id g.id).0 e), rest)
      | inr e ↦ ground (arith, rest)
    ]

-- Where no row has the identifier Nil.
Sorted-Ascending : (gs : List Gallery) → Sorted gs → find_row 0 gs ≡ none → Ascending 0 gs
Sorted-Ascending [] s h = tt
Sorted-Ascending (g ∷ gs) s h = elim (Bool-cases (0 == g.id)) [
  | inl e ↦ absurd (ground arith)
  | inr e ↦ (ground arith, s)
]

module _ (db : Db) (writes : WriteLaws db) (reads : ReadLaws db writes) where
  open db use {World}

  abbrev member_of : World → ℕ → ℕ → Bool
  member_of w user id = (writes.tables w).members id user

  -- The galleries of a user.
  abbrev pub galleries_of : World → ℕ → List Gallery
  galleries_of w user = joined_rows (member_of w user) (reads.rows w)

  galleries_of-Ascending :
      (w : World) → Consistent (writes.tables w) → (user : ℕ) → Ascending 0 (galleries_of w user)
  galleries_of-Ascending w c user =
      joined_rows-Ascending (member_of w user) 0 (reads.rows w)
        (Sorted-Ascending (reads.rows w) (reads.sorted w) (reads.kept 0 w ∙ c.not_nil))

  behind-after_clause :
      (after : ℕ) (gs : List Gallery)
      → Ascending 0 gs
      → behind (after_clause after) gs ≡ above after gs
  behind-after_clause zero gs s = sym (above-Ascending 0 0 gs s (omega arith))
  behind-after_clause (suc n) gs s = ground arith

  page_of :
      (w : World)
      → Consistent (writes.tables w)
      → (user limit after : ℕ) → 0 < limit
      → Queries.list_galleries_by_member db w user (pos limit) after
        ≡ ok (take limit (above after (galleries_of w user)))
  unfolding Queries.list_galleries_by_member
  page_of w c user zero after h = absurd (omega arith)
  page_of w c user (suc n) after h =
      reads.found_joined user (after_clause after) (pos (suc n)) w
      ∙ ap (λ (gs : List Gallery). ok (take (suc n) gs))
          (behind-after_clause after (galleries_of w user) (galleries_of-Ascending w c user))

  query_repository-ByMember :
      (w : World) → Consistent (writes.tables w) → ByMember (query_repository db w) (galleries_of w)
  query_repository-ByMember w c = record {
    ascending = galleries_of-Ascending w c;
    pages = page_of w c;
  }

  contains-galleries_of :
      (w : World) (id user : ℕ)
      → Consistent (writes.tables w)
      → contains id (map (λ (g : Gallery). g.id) (galleries_of w user))
        ≡ (writes.tables w).members id user
  contains-galleries_of w id user c =
      let all = contains-joined_rows (member_of w user) id (reads.rows w) in
      let there = reads.kept id w in
      elim (Bool-cases ((writes.tables w).members id user)) [
        | inr e ↦ ground (arith, all)
        | inl e ↦ let (g, found) = c.referenced id user e in ground (arith, all, there, found)
      ]

  module _ (uuids : Uuids) (uuids_work : WritesUuids uuids) where
    -- What a subscription resolves in a state of the database, with fuel for one call more than the
    -- user has galleries.
    abbrev pub resolved : World → ℕ → Result (List ℕ)
    resolved w user =
        resolve_memberships uuids (list_galleries_by_member uuids (query_repository db w))
          (length (galleries_of w user) + 1) user ""

    -- What is resolved for a user is the galleries that list the user as a member.
    pub resolved-members :
        (w : World) (user : ℕ)
        → user ≢ 0
        → Consistent (writes.tables w)
        → (l : List ℕ) × (resolved w user ≡ ok l)
          × ((id : ℕ) → contains id l ≡ (writes.tables w).members id user)
    resolved-members w user given c = (
      map (λ (g : Gallery). g.id) (galleries_of w user),
      resolve_memberships-all uuids uuids_work (query_repository db w) (galleries_of w)
          (query_repository-ByMember w c) user given,
      λ id. contains-galleries_of w id user c,
    )

    abbrev repository_laws : Laws (command_repository db)
    repository_laws = command_repository-Laws db writes

    -- JoinGallery and LeaveGallery, by whether the user is to be a member.
    abbrev pub sets_member : Bool → ℕ → ℕ → Command
    sets_member true id user = joins id user
    sets_member false id user = leaves id user

    sets_member-tables :
        (b : Bool) (id user : ℕ) {t t' : Tables} {es : List Event}
        → Transition (sets_member b id user) t t' es
        → Consistent t
        → Consistent t' × (t' ≡ set_member id user b t)
    sets_member-tables true id user {t = t} (joined g found free after out) c =
        (subst Consistent (sym after) (set_member-Consistent id user t g found c), after)
    sets_member-tables false id user {t = t} (left after out) c =
        (subst Consistent (sym after) (unset_member-Consistent id user t c), after)

    after_command :
        (b : Bool) (id user : ℕ) (s : State (command_repository db))
        → Consistent (writes.tables s.world)
        → (execute (command_repository db) (sets_member b id user) s).0 ≡ ok tt
        → let w' = (execute (command_repository db) (sets_member b id user) s).1.world in
          Consistent (writes.tables w')
          × (writes.tables w' ≡ set_member id user b (writes.tables s.world))
    unfolding command_repository-Laws
    after_command b id user s c done =
        elim (execute-Executed (command_repository db) repository_laws (sets_member b id user) s) [
          | failed bad same out ↦ absurd (ground arith)
          | performed es good out change ↦ sets_member-tables b id user change c
        ]

    -- While the database serves, after a JoinGallery of a user that succeeded, the loop of a
    -- subscription of that user, run against the queries of the same database, ends within one call
    -- more than the user has galleries and resolves that gallery and those that the user was a
    -- member of before, and no others; after a LeaveGallery that succeeded, those without that
    -- gallery. The tables are consistent before, and the user is not Nil.
    pub resolved-execute :
        (b : Bool) (id user : ℕ) (s : State (command_repository db))
        → user ≢ 0
        → Consistent (writes.tables s.world)
        → (execute (command_repository db) (sets_member b id user) s).0 ≡ ok tt
        → (l : List ℕ) × (resolved
              (execute (command_repository db) (sets_member b id user) s).1.world
              user
            ≡ ok l)
          × ((i : ℕ)
              → contains i l ≡ (if i == id then b else (writes.tables s.world).members i user))
    resolved-execute b id user s given c done =
        let (c', after) = after_command b id user s c done in
        let w' = (execute (command_repository db) (sets_member b id user) s).1.world in
        let (l, all, those) = resolved-members w' user given c' in
        (l, all, λ i. those i ∙ ap (λ (t : Tables). t.members i user) after ∙ ground arith)
