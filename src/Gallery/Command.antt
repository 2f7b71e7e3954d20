-- ===== src/Gallery/Command.antt =====
-- internal/gallery/command: the commands of the gallery service. The repository, which calls the
-- database, is a parameter with the operations of its interface. An event that a command hands to a
-- goroutine for publication is appended to the events of the state.
pub mod Tables
pub mod Transitions
pub mod Closing
pub mod Interleaving
use progetto_sdcc.Prelude.{
  ℕ, String, Bool, true, false, not, List, [], ◌∷◌, ◌++◌, Error, status, statusf, invalid_argument,
  not_found, permission_denied, failed_precondition, internal, unauthenticated, Result, ok, err,
  is_empty, ◌==◌,
}
use progetto_sdcc.Prelude.Action.{Action, and_then, ◌>>=◌, ◌>>◌, pure, require, or_fail}
use progetto_sdcc.Gallery.{Gallery, GalleryStatus, gallery_open, gallery_closed}

-- The gallery of CreateGallery, with zero times.
abbrev pub new_gallery : ℕ → String → String → ℕ → Gallery
new_gallery id name description moderator = record {
  id = id;
  name = name;
  description = description;
  gallery_status = gallery_open;
  moderator_id = moderator;
  created_at = 0;
  updated_at = 0;
}

-- `CommandRepository`, the clock and the source of identifiers. `World` is the database and they.
-- Create fills in the gallery that it gets, so it returns a gallery here.
pub record CommandRepository : Type 1 where
  pub World : Type 0
  pub create_gallery : Gallery → World → Result Gallery × World
  pub get_gallery : ℕ → World → Result Gallery × World
  pub update_gallery : Gallery → World → Result (Unit {0}) × World
  pub delete_gallery : ℕ → World → Result (Unit {0}) × World
  pub join_gallery : ℕ → ℕ → World → Result (Unit {0}) × World
  pub leave_gallery : ℕ → ℕ → World → Result (Unit {0}) × World
  pub now : World → ℕ
  pub new_uuid : World → ℕ × World

-- The arguments of `Publish`: the event's type and its payload.
pub data Event : Type 0 where
  gallery_closed_event : (gallery : ℕ) (name : String) → Event
  moderator_alert : (gallery : ℕ) (name : String) (message : String) → Event

abbrev pub is_closed : GalleryStatus → Bool
is_closed gallery_closed = true
is_closed gallery_open = false

-- A call of the service with its arguments.
pub data Command : Type 0 where
  creates : (name : String) (description : String) (moderator : ℕ) → Command
  deletes closes : (gallery : ℕ) (caller : ℕ) → Command
  joins leaves : (gallery : ℕ) (user : ℕ) → Command
  alerts : (gallery : ℕ) (caller : ℕ) (message : String) → Command

module _ (repo : CommandRepository) where
  pub record State : Type 0 where
    pub world : repo.World
    pub events : List Event

  -- A call of the repository.
  abbrev pub on_repo : {A : Type 0} → (repo.World → Result A × repo.World) → Action State A
  on_repo f s = let r = f s.world in (r.0, record s { world = r.1 })

  abbrev pub clock : Action State ℕ
  clock s = (ok (repo.now s.world), s)

  abbrev pub fresh_uuid : Action State ℕ
  fresh_uuid s = (ok (repo.new_uuid s.world).0, record s { world = (repo.new_uuid s.world).1 })

  -- `go func() { s.publisher.Publish(...) }()`
  abbrev pub publish_later : Event → Action State (Unit {0})
  publish_later e s = (ok tt, record s { events = s.events ++ e ∷ [] })

  abbrev pub find_gallery : ℕ → Action State Gallery
  find_gallery id =
      or_fail (λ _. status not_found "gallery not found") (on_repo (repo.get_gallery id))

  unfoldable pub create_gallery : String → String → ℕ → Action State Gallery
  create_gallery name description moderator = do
    require (not (is_empty name)) (status invalid_argument "gallery name is required")
    require (not (moderator == 0)) (status unauthenticated "missing moderator identity")
    id ← fresh_uuid
    or_fail (statusf internal "create gallery")
        (on_repo (repo.create_gallery (new_gallery id name description moderator)))

  unfoldable pub delete_gallery : ℕ → ℕ → Action State (Unit {0})
  delete_gallery id caller = do
    g ← find_gallery id
    require (g.moderator_id == caller)
        (status permission_denied "only the moderator can delete this gallery")
    or_fail (statusf internal "delete gallery") (on_repo (repo.delete_gallery g.id))

  unfoldable pub close_gallery : ℕ → ℕ → Action State (Unit {0})
  close_gallery id caller = do
    g ← find_gallery id
    require (g.moderator_id == caller)
        (status permission_denied "only the moderator can close this gallery")
    require (not (is_closed g.gallery_status)) (status failed_precondition "gallery already closed")
    now ← clock
    or_fail (statusf internal "close gallery") (
        on_repo
          (repo.update_gallery (record g { gallery_status = gallery_closed; updated_at = now })))
    publish_later (gallery_closed_event g.id g.name)

  unfoldable pub join_gallery : ℕ → ℕ → Action State (Unit {0})
  join_gallery id user = do
    g ← find_gallery id
    require (not (is_closed g.gallery_status))
        (status failed_precondition "cannot join a closed gallery")
    or_fail (statusf internal "add member") (on_repo (repo.join_gallery id user))

  unfoldable pub leave_gallery : ℕ → ℕ → Action State (Unit {0})
  leave_gallery id user =
      or_fail (statusf internal "remove member") (on_repo (repo.leave_gallery id user))

  unfoldable pub send_moderator_alert : ℕ → ℕ → String → Action State (Unit {0})
  send_moderator_alert id caller message = do
    g ← find_gallery id
    require (caller == g.moderator_id)
        (status permission_denied "only the moderator can send alerts")
    require (not (is_empty message)) (status invalid_argument "alert message is required")
    publish_later (moderator_alert id g.name message)

  unfoldable pub execute : Command → Action State (Unit {0})
  unfolding create_gallery delete_gallery close_gallery join_gallery leave_gallery
      send_moderator_alert
  execute (creates name description moderator) = do
    g ← create_gallery name description moderator
    pure tt
  execute (deletes id caller) = delete_gallery id caller
  execute (closes id caller) = close_gallery id caller
  execute (joins id user) = join_gallery id user
  execute (leaves id user) = leave_gallery id user
  execute (alerts id caller message) = send_moderator_alert id caller message
