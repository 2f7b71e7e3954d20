-- ===== src/Gallery/Command/Tables.antt =====
-- What the commands do, on tables of galleries and members.
use progetto_sdcc.Prelude.{
  ℕ, ◌≡◌, ◌≢◌, String, Bool, true, false, ◌&&◌, Option, none, some, List, [], ◌∷◌, Error, ok, err,
  is_ok, is_empty, ◌==◌, if◌then◌else◌,
}
use progetto_sdcc.Gallery.{Gallery, gallery_open, gallery_closed}
use progetto_sdcc.Gallery.Command.{
  CommandRepository, Event, gallery_closed_event, moderator_alert, new_gallery, Command, creates,
  deletes, closes, joins, leaves, alerts,
}

-- The two tables.
pub record Tables : Type 0 where
  pub galleries : ℕ → Option Gallery
  pub members : ℕ → ℕ → Bool

abbrev pub put_gallery : Gallery → Tables → Tables
put_gallery g t = record t { galleries = λ id. if id == g.id then some g else t.galleries id }

-- Members are deleted with their gallery.
abbrev pub remove_gallery : ℕ → Tables → Tables
remove_gallery g t = record {
  galleries = λ id. if id == g then none else t.galleries id;
  members = λ id user. if id == g then false else t.members id user;
}

abbrev pub set_member : ℕ → ℕ → Bool → Tables → Tables
set_member g u b t = record t {
  members = λ id user. if (id == g) && (user == u) then b else t.members id user;
}

-- What the code relies on: each operation changes the tables as its SQL statement says, or fails
-- and leaves them alone. Create takes no identifier that is in use, draws one in place of Nil, and
-- sets the times; reading and drawing an identifier change nothing.
pub record Laws (repo : CommandRepository) : Type 0 where
  pub tables : repo.World → Tables
  pub create_ok :
      (g g' : Gallery) (w : repo.World)
      → (repo.create_gallery g w).0 ≡ ok g'
      → ((tables w).galleries g'.id ≡ none)
        × (g'.id ≢ 0)
        × (g' ≡ record g { id = g'.id; created_at = g'.created_at; updated_at = g'.updated_at })
        × (tables (repo.create_gallery g w).1 ≡ put_gallery g' (tables w))
  pub create_err :
      (g : Gallery) (e : Error) (w : repo.World)
      → (repo.create_gallery g w).0 ≡ err e
      → tables (repo.create_gallery g w).1 ≡ tables w
  pub get_same : (id : ℕ) (w : repo.World) → tables (repo.get_gallery id w).1 ≡ tables w
  pub get_ok :
      (id : ℕ) (g : Gallery) (w : repo.World)
      → (repo.get_gallery id w).0 ≡ ok g
      → ((tables w).galleries id ≡ some g) × (g.id ≡ id)
  pub updated :
      (g : Gallery) (w : repo.World)
      → tables (repo.update_gallery g w).1
        ≡ (if is_ok (repo.update_gallery g w).0 then put_gallery g (tables w) else tables w)
  pub deleted :
      (id : ℕ) (w : repo.World)
      → tables (repo.delete_gallery id w).1
        ≡ (if is_ok (repo.delete_gallery id w).0 then remove_gallery id (tables w) else tables w)
  pub joined :
      (id user : ℕ) (w : repo.World)
      → tables (repo.join_gallery id user w).1 ≡ (
          if is_ok (repo.join_gallery id user w).0
          then set_member id user true (tables w)
          else tables w)
  pub left :
      (id user : ℕ) (w : repo.World)
      → tables (repo.leave_gallery id user w).1 ≡ (
          if is_ok (repo.leave_gallery id user w).0
          then set_member id user false (tables w)
          else tables w)
  pub drawn : (w : repo.World) → tables (repo.new_uuid w).1 ≡ tables w

-- What a command may do: the tables before, the tables after, and the events handed over.
pub data Transition : Command → Tables → Tables → List Event → Type 0 where
  created :
      {name description : String} {moderator : ℕ} {t t' : Tables} {es : List Event} (g : Gallery)
      → is_empty name ≡ false
      → moderator ≢ 0
      → g.id ≢ 0
      → t.galleries g.id ≡ none
      → g ≡ record (new_gallery g.id name description moderator) {
        created_at = g.created_at;
        updated_at = g.updated_at;
      }
      → t' ≡ put_gallery g t
      → es ≡ []
      → Transition (creates name description moderator) t t' es
  deleted :
      {id caller : ℕ} {t t' : Tables} {es : List Event} (g : Gallery)
      → t.galleries id ≡ some g
      → g.moderator_id ≡ caller
      → t' ≡ remove_gallery id t
      → es ≡ []
      → Transition (deletes id caller) t t' es
  closed :
      {id caller : ℕ} {t t' : Tables} {es : List Event} (g : Gallery) (now : ℕ)
      → t.galleries id ≡ some g
      → g.moderator_id ≡ caller
      → g.gallery_status ≡ gallery_open
      → g.id ≡ id
      → t' ≡ put_gallery (record g { gallery_status = gallery_closed; updated_at = now }) t
      → es ≡ gallery_closed_event id g.name ∷ []
      → Transition (closes id caller) t t' es
  joined :
      {id user : ℕ} {t t' : Tables} {es : List Event} (g : Gallery)
      → t.galleries id ≡ some g
      → g.gallery_status ≡ gallery_open
      → t' ≡ set_member id user true t
      → es ≡ []
      → Transition (joins id user) t t' es
  left :
      {id user : ℕ} {t t' : Tables} {es : List Event}
      → t' ≡ set_member id user false t
      → es ≡ []
      → Transition (leaves id user) t t' es
  alerted :
      {id caller : ℕ} {message : String} {t t' : Tables} {es : List Event} (g : Gallery)
      → t.galleries id ≡ some g
      → g.moderator_id ≡ caller
      → is_empty message ≡ false
      → t' ≡ t
      → es ≡ moderator_alert id g.name message ∷ []
      → Transition (alerts id caller message) t t' es
