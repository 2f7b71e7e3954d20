-- ===== src/Gallery/Command/Interleaving/Proper.antt =====
-- What the checks of internal/gallery/command/service.go keep true of the rows and the events, however
-- commands interleave.
use progetto_sdcc.Prelude.{
  ℕ, ◌≡◌, Bool, true, not, ◌&&◌, some, List, [], ◌∷◌, Result, ok, err, is_empty, ◌==◌,
}
use progetto_sdcc.Gallery.{Gallery}
use progetto_sdcc.Gallery.Command.{
  CommandRepository, State, Event, gallery_closed_event, moderator_alert, Command,
}
use progetto_sdcc.Gallery.Command.Tables.{Tables, Laws}
use progetto_sdcc.Gallery.Command.Transitions.{tables_of}
use progetto_sdcc.Gallery.Command.Interleaving.{
  Pending, create_write, close_write, alert_write, System,
}

-- A gallery has a name and a moderator.
abbrev pub proper : Gallery → Bool
proper g = not (is_empty g.name) && not (g.moderator_id == 0)

-- An event has the name of a gallery, and an alert a message too.
abbrev pub telling : Event → Bool
telling (gallery_closed_event g name) = not (is_empty name)
telling (moderator_alert g name message) = not (is_empty name) && not (is_empty message)

abbrev pub all_telling : List Event → Bool
all_telling [] = true
all_telling (e ∷ es) = telling e && all_telling es

abbrev pub proper_write : Pending → Bool
proper_write (create_write g) = proper g
proper_write (close_write g) = proper g
proper_write (alert_write id name message) = not (is_empty name) && not (is_empty message)
proper_write _ = true

abbrev pub all_proper : List Pending → Bool
all_proper [] = true
all_proper (w ∷ ws) = proper_write w && all_proper ws

pub record AllProper (t : Tables) : Type 0 where
  pub rows : (id : ℕ) (g : Gallery) → t.galleries id ≡ some g → proper g ≡ true

module _ (repo : CommandRepository) (laws : Laws repo) where
  abbrev tables : State repo → Tables
  tables = tables_of repo laws

  -- The rows, the events and the writes in flight are proper.
  pub record Proper (s : System repo) : Type 0 where
    pub rows : AllProper (tables s.state)
    pub told : all_telling s.state.events ≡ true
    pub in_flight : all_proper s.in_flight ≡ true

  abbrev proper_result : Result Pending → Bool
  proper_result (err e) = true
  proper_result (ok w) = proper_write w

  abbrev ProperAfter : State repo → Type 0
  ProperAfter s = AllProper (tables s) × (all_telling s.events ≡ true)
