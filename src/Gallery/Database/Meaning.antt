-- ===== src/Gallery/Database/Meaning.antt =====
-- What the statements mean, on the tables of Gallery.Command.Tables.
use progetto_sdcc.Prelude.{
  ℕ, ◌≡◌, ◌≢◌, refl, Bool, true, false, Option, none, some, List, [], ◌∷◌, map, Error, ok, err,
  is_ok, take, contains, ◌==◌, if◌then◌else◌,
}
use progetto_sdcc.Prelude.Int.{ℤ, pos, negsuc}
use progetto_sdcc.Gallery.{Gallery, Member}
use progetto_sdcc.Gallery.Command.Tables.{Tables, put_gallery, remove_gallery, set_member, Laws}
use progetto_sdcc.Subscription.Memberships.{Ascending, above}
use progetto_sdcc.Gallery.Database.{Db}
use progetto_sdcc.Gallery.Database.Queries.{has_rows}
use progetto_sdcc.Gallery.Database.Commands.{
  command_repository, create_gallery, get_gallery, update_gallery, delete_gallery, join_gallery,
  leave_gallery,
}

-- The row of a gallery among rows.
abbrev pub find_row : ℕ → List Gallery → Option Gallery
find_row id [] = none
find_row id (g ∷ gs) = let rest = find_row id gs in if id == g.id then some g else rest

-- In the order of the primary key, which no two rows share.
abbrev pub Sorted : List Gallery → Type 0
Sorted [] = Unit
Sorted (g ∷ gs) = Ascending g.id gs

-- `LIMIT`, which a negative number leaves out, and `WHERE id > after`.
abbrev pub limited : ℤ → List Gallery → List Gallery
limited (pos n) gs = take n gs
limited (negsuc n) gs = gs

abbrev pub behind : Option ℕ → List Gallery → List Gallery
behind none gs = gs
behind (some a) gs = above a gs

-- The rows of the join with the members of a user: a gallery and a user are the primary key of
-- `members`, so a gallery has one row or none.
abbrev pub joined_rows : (ℕ → Bool) → List Gallery → List Gallery
joined_rows member [] = []
joined_rows member (g ∷ gs) =
    let rest = joined_rows member gs in if member g.id then g ∷ rest else rest

-- What the database promises of the statements that write: each does what it says or fails and
-- changes nothing. A gallery is deleted with its members, as the foreign key cascades. Create takes no identifier that is in use, draws one in
-- place of Nil and sets the times.
pub record WriteLaws (db : Db) : Type 0 where
  pub tables : db.World → Tables
  pub created :
      (g g' : Gallery) (w : db.World)
      → (db.create_gallery g w).0 ≡ ok g'
      → ((tables w).galleries g'.id ≡ none)
        × (g'.id ≢ 0)
        × (g' ≡ record g { id = g'.id; created_at = g'.created_at; updated_at = g'.updated_at })
        × (tables (db.create_gallery g w).1 ≡ put_gallery g' (tables w))
  pub not_created :
      (g : Gallery) (e : Error) (w : db.World)
      → (db.create_gallery g w).0 ≡ err e
      → tables (db.create_gallery g w).1 ≡ tables w
  pub saved :
      (g : Gallery) (w : db.World)
      → tables (db.save_gallery g w).1
        ≡ (if is_ok (db.save_gallery g w).0 then put_gallery g (tables w) else tables w)
  pub deleted :
      (id : ℕ) (w : db.World)
      → tables (db.delete_gallery id w).1
        ≡ (if is_ok (db.delete_gallery id w).0 then remove_gallery id (tables w) else tables w)
  pub member_created :
      (m : Member) (w : db.World)
      → tables (db.create_member m w).1 ≡ (
          if is_ok (db.create_member m w).0
          then set_member m.gallery_id m.user_id true (tables w)
          else tables w)
  pub member_deleted :
      (id user : ℕ) (w : db.World)
      → tables (db.delete_member id user w).1 ≡ (
          if is_ok (db.delete_member id user w).0
          then set_member id user false (tables w)
          else tables w)
  pub first :
      (id : ℕ) (g : Gallery) (w : db.World)
      → db.first_gallery id w ≡ ok g
      → ((tables w).galleries id ≡ some g) × (g.id ≡ id)
  pub drawn : (w : db.World) → tables (db.new_uuid w).1 ≡ tables w

-- What it promises of the statements that read, while it serves: the rows of the galleries are
-- those of the table in the order of the primary key, and a query returns those that it asks for.
pub record ReadLaws (db : Db) (writes : WriteLaws db) : Type 0 where
  pub rows : db.World → List Gallery
  pub member_rows : db.World → ℕ → List Member
  pub sorted : (w : db.World) → Sorted (rows w)
  pub kept : (id : ℕ) (w : db.World) → find_row id (rows w) ≡ (writes.tables w).galleries id
  pub found :
      (after : Option ℕ) (limit : ℤ) (w : db.World)
      → db.find_galleries after limit w ≡ ok (limited limit (behind after (rows w)))
  pub found_joined :
      (user : ℕ) (after : Option ℕ) (limit : ℤ) (w : db.World)
      → db.find_joined user after limit w
        ≡ ok (
            limited limit
              (behind after (joined_rows (λ id. (writes.tables w).members id user) (rows w))))
  pub found_members : (id : ℕ) (w : db.World) → db.find_members id w ≡ ok (member_rows w id)
  pub members_kept :
      (id user : ℕ) (w : db.World)
      → contains user (map (λ (m : Member). m.user_id) (member_rows w id))
        ≡ (writes.tables w).members id user
  pub counted_none :
      (id : ℕ) (w : db.World)
      → (writes.tables w).galleries id ≡ none
      → db.count_galleries id w ≡ ok 0
  pub counted_one :
      (id : ℕ) (g : Gallery) (w : db.World)
      → (writes.tables w).galleries id ≡ some g
      → db.count_galleries id w ≡ ok 1
  pub preloaded :
      (id user : ℕ) (g : Gallery) (w : db.World)
      → (writes.tables w).galleries id ≡ some g
      → (ms : List Member) × (db.first_with_member user id w ≡ ok (g, ms))
        × (has_rows ms ≡ (writes.tables w).members id user)

-- The repository of the commands does what the service expects of it.
unfoldable pub command_repository-Laws : (db : Db) → WriteLaws db → Laws (command_repository db)
unfolding create_gallery get_gallery update_gallery delete_gallery join_gallery leave_gallery
command_repository-Laws db writes = record {
  tables = writes.tables;
  create_ok = writes.created;
  create_err = writes.not_created;
  get_same = λ id w. refl;
  get_ok = writes.first;
  updated = writes.saved;
  deleted = writes.deleted;
  joined = λ id user w.
      writes.member_created (record { gallery_id = id; user_id = user; joined_at = 0 }) w;
  left = writes.member_deleted;
  drawn = writes.drawn;
}
