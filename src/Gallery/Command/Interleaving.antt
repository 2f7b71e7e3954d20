-- ===== src/Gallery/Command/Interleaving.antt =====
-- internal/gallery/command/service.go: commands that run at the same time. A command reads and checks,
-- then writes; between the two, other commands run, since no transaction spans them.
pub mod Commands
pub mod Writes
pub mod Shut
pub mod Proper
pub mod Races
use progetto_sdcc.Prelude.{
  ℕ, zero, suc, String, Bool, true, false, not, Option, none, some, List, [], ◌∷◌, Error, status,
  statusf, invalid_argument, permission_denied, failed_precondition, internal, unauthenticated,
  Result, ok, err, is_empty, ◌==◌,
}
use progetto_sdcc.Prelude.Action.{Action, and_then, ◌>>=◌, ◌>>◌, pure, require, or_fail}
use progetto_sdcc.Gallery.{Gallery, gallery_closed}
use progetto_sdcc.Gallery.Command.{
  CommandRepository, Event, gallery_closed_event, moderator_alert, is_closed, new_gallery, State,
  Command, creates, deletes, closes, joins, leaves, alerts, on_repo, clock, fresh_uuid,
  publish_later, find_gallery,
}

-- What a command still has to write, after its checks.
pub data Pending : Type 0 where
  create_write : Gallery → Pending
  delete_write : (gallery : ℕ) → Pending
  close_write : Gallery → Pending
  join_write leave_write : (gallery : ℕ) (user : ℕ) → Pending
  alert_write : (gallery : ℕ) (name : String) (message : String) → Pending

-- The element at a place, and the others.
abbrev pub pick : {A : Type 0} → ℕ → List A → Option (A × List A)
pick k [] = none
pick zero (x ∷ xs) = some (x, xs)
pick (suc k) (x ∷ xs) = elim (pick k xs) [ none ↦ none | some (y, ys) ↦ some (y, x ∷ ys) ]

module _ (repo : CommandRepository) where
  -- A command up to its write.
  unfoldable pub begin : Command → Action (State repo) Pending
  begin (creates name description moderator) = do
    require (not (is_empty name)) (status invalid_argument "gallery name is required")
    require (not (moderator == 0)) (status unauthenticated "missing moderator identity")
    id ← fresh_uuid repo
    pure (create_write (new_gallery id name description moderator))
  begin (deletes id caller) = do
    g ← find_gallery repo id
    require (g.moderator_id == caller)
        (status permission_denied "only the moderator can delete this gallery")
    pure (delete_write g.id)
  begin (closes id caller) = do
    g ← find_gallery repo id
    require (g.moderator_id == caller)
        (status permission_denied "only the moderator can close this gallery")
    require (not (is_closed g.gallery_status)) (status failed_precondition "gallery already closed")
    now ← clock repo
    pure (close_write (record g { gallery_status = gallery_closed; updated_at = now }))
  begin (joins id user) = do
    g ← find_gallery repo id
    require (not (is_closed g.gallery_status))
        (status failed_precondition "cannot join a closed gallery")
    pure (join_write id user)
  begin (leaves id user) = pure (leave_write id user)
  begin (alerts id caller message) = do
    g ← find_gallery repo id
    require (caller == g.moderator_id)
        (status permission_denied "only the moderator can send alerts")
    require (not (is_empty message)) (status invalid_argument "alert message is required")
    pure (alert_write id g.name message)

  -- The write, and the event that follows it.
  unfoldable pub finish : Pending → Action (State repo) (Unit {0})
  finish (create_write g) = do
    created ← or_fail (statusf internal "create gallery") (on_repo repo (repo.create_gallery g))
    pure tt
  finish (delete_write id) =
      or_fail (statusf internal "delete gallery") (on_repo repo (repo.delete_gallery id))
  finish (close_write g) = do
    or_fail (statusf internal "close gallery") (on_repo repo (repo.update_gallery g))
    publish_later repo (gallery_closed_event g.id g.name)
  finish (join_write id user) =
      or_fail (statusf internal "add member") (on_repo repo (repo.join_gallery id user))
  finish (leave_write id user) =
      or_fail (statusf internal "remove member") (on_repo repo (repo.leave_gallery id user))
  finish (alert_write id name message) = publish_later repo (moderator_alert id name message)

  -- The commands whose writes are still to come, and the state.
  pub record System : Type 0 where
    pub in_flight : List Pending
    pub state : State repo

  -- What happens next: a command begins, or the write at a place is made.
  pub data Label : Type 0 where
    begins : Command → Label
    finishes : ℕ → Label

  abbrev begun : Result Pending × State repo → List Pending → System
  begun (ok w, s) ws = record { in_flight = w ∷ ws; state = s }
  begun (err e, s) ws = record { in_flight = ws; state = s }

  abbrev ended : Option (Pending × List Pending) → System → System
  ended none s = s
  ended (some (w, ws)) s = record { in_flight = ws; state = (finish w s.state).1 }

  unfoldable pub step : Label → System → System
  step (begins c) s = begun (begin c s.state) s.in_flight
  step (finishes k) s = ended (pick k s.in_flight) s

  abbrev pub run_steps : List Label → System → System
  run_steps [] s = s
  run_steps (l ∷ ls) s = run_steps ls (step l s)
