-- ===== src/Gallery/Command/Transitions.antt =====
-- The commands against tables of galleries and members.
use mathlib.Core.List.{append-nil}
use progetto_sdcc.Prelude.{
  ℕ, ◌≡◌, refl, String, false, List, [], ◌∷◌, ◌++◌, arith, Result, ok, is_ok, is_empty, ◌==◌, inl,
  inr, Result-cases, Bool-cases,
}
use progetto_sdcc.Gallery.{gallery_closed}
use progetto_sdcc.Gallery.Command.{
  CommandRepository, Event, gallery_closed_event, moderator_alert, is_closed, new_gallery, State,
  Command, creates, deletes, closes, joins, leaves, alerts, execute, create_gallery, delete_gallery,
  close_gallery, join_gallery, leave_gallery, send_moderator_alert,
}
use progetto_sdcc.Gallery.Command.Tables.{
  Tables, Laws, Transition, created, deleted, closed, joined, left, alerted,
}

module _ (repo : CommandRepository) (laws : Laws repo) where
  abbrev pub tables_of : State repo → Tables
  tables_of s = laws.tables s.world

  -- How a command ends.
  pub data Executed (c : Command) (s : State repo) (r : Result (Unit {0}) × State repo)
      : Type 0 where
    failed :
        is_ok r.0 ≡ false → tables_of r.1 ≡ tables_of s → r.1.events ≡ s.events → Executed c s r
    performed :
        (es : List Event)
        → r.0 ≡ ok tt
        → r.1.events ≡ s.events ++ es
        → Transition c (tables_of s) (tables_of r.1) es
        → Executed c s r

  close-Executed :
      (id caller : ℕ) (s : State repo)
      → Executed (closes id caller) s (close_gallery repo id caller s)
  unfolding close_gallery
  close-Executed id caller s =
      let same = laws.get_same id s.world in
      elim (Result-cases (repo.get_gallery id s.world).0) [
        | inr (e, q) ↦ failed (ground arith) (ground arith) (ground arith)
        | inl (g, q) ↦
            let (found, named) = laws.get_ok id g s.world q in
            let w = (repo.get_gallery id s.world).1 in
            let g' = record g { gallery_status = gallery_closed; updated_at = repo.now w } in
            let law = laws.updated g' w in
            elim (Bool-cases (g.moderator_id == caller)) [
              | inr other ↦ failed (ground arith) (ground arith) (ground arith)
              | inl mine ↦ elim (Bool-cases (is_closed g.gallery_status)) [
                | inl shut ↦ failed (ground arith) (ground arith) (ground arith)
                | inr free ↦ elim (Result-cases (repo.update_gallery g' w).0) [
                  | inr (e, x) ↦ failed (ground arith) (ground arith) (ground arith)
                  | inl (u, x) ↦
                      performed (gallery_closed_event id g.name ∷ []) (ground arith) (ground arith)
                        (closed g (repo.now w) found (ground arith) (ground arith) named
                          (ground arith) refl)
                ]
              ]
            ]
      ]

  delete-Executed :
      (id caller : ℕ) (s : State repo)
      → Executed (deletes id caller) s (delete_gallery repo id caller s)
  unfolding delete_gallery
  delete-Executed id caller s =
      let same = laws.get_same id s.world in
      elim (Result-cases (repo.get_gallery id s.world).0) [
        | inr (e, q) ↦ failed (ground arith) (ground arith) (ground arith)
        | inl (g, q) ↦
            let (found, named) = laws.get_ok id g s.world q in
            let w = (repo.get_gallery id s.world).1 in
            let law = laws.deleted g.id w in
            elim (Bool-cases (g.moderator_id == caller)) [
              | inr other ↦ failed (ground arith) (ground arith) (ground arith)
              | inl mine ↦ elim (Result-cases (repo.delete_gallery g.id w).0) [
                | inr (e, x) ↦ failed (ground arith) (ground arith) (ground arith)
                | inl (u, x) ↦
                    performed [] (ground arith) (ground (arith, append-nil s.events))
                      (deleted g found (ground arith) (ground arith) refl)
              ]
            ]
      ]

  join-Executed :
      (id user : ℕ) (s : State repo) → Executed (joins id user) s (join_gallery repo id user s)
  unfolding join_gallery
  join-Executed id user s =
      let same = laws.get_same id s.world in
      elim (Result-cases (repo.get_gallery id s.world).0) [
        | inr (e, q) ↦ failed (ground arith) (ground arith) (ground arith)
        | inl (g, q) ↦
            let (found, named) = laws.get_ok id g s.world q in
            let w = (repo.get_gallery id s.world).1 in
            let law = laws.joined id user w in
            elim (Bool-cases (is_closed g.gallery_status)) [
              | inl shut ↦ failed (ground arith) (ground arith) (ground arith)
              | inr free ↦ elim (Result-cases (repo.join_gallery id user w).0) [
                | inr (e, x) ↦ failed (ground arith) (ground arith) (ground arith)
                | inl (u, x) ↦
                    performed [] (ground arith) (ground (arith, append-nil s.events))
                      (joined g found (ground arith) (ground arith) refl)
              ]
            ]
      ]

  leave-Executed :
      (id user : ℕ) (s : State repo) → Executed (leaves id user) s (leave_gallery repo id user s)
  unfolding leave_gallery
  leave-Executed id user s =
      let law = laws.left id user s.world in
      elim (Result-cases (repo.leave_gallery id user s.world).0) [
        | inr (e, x) ↦ failed (ground arith) (ground arith) (ground arith)
        | inl (u, x) ↦
            performed [] (ground arith) (ground (arith, append-nil s.events))
              (left (ground arith) refl)
      ]

  alert-Executed :
      (id caller : ℕ) (message : String) (s : State repo)
      → Executed (alerts id caller message) s (send_moderator_alert repo id caller message s)
  unfolding send_moderator_alert
  alert-Executed id caller message s =
      let same = laws.get_same id s.world in
      elim (Result-cases (repo.get_gallery id s.world).0) [
        | inr (e, q) ↦ failed (ground arith) (ground arith) (ground arith)
        | inl (g, q) ↦
            let (found, named) = laws.get_ok id g s.world q in
            elim (Bool-cases (caller == g.moderator_id)) [
              | inr other ↦ failed (ground arith) (ground arith) (ground arith)
              | inl mine ↦ elim (Bool-cases (is_empty message)) [
                | inl blank ↦ failed (ground arith) (ground arith) (ground arith)
                | inr said ↦
                    performed (moderator_alert id g.name message ∷ []) (ground arith) (ground arith)
                      (alerted g found (ground arith) said (ground arith) refl)
              ]
            ]
      ]

  create-Executed :
      (name description : String) (moderator : ℕ) (s : State repo)
      → Executed
          (creates name description moderator)
          s
          (execute repo (creates name description moderator) s)
  unfolding execute create_gallery
  create-Executed name description moderator s =
      let (id, w) = repo.new_uuid s.world in
      let same = laws.drawn s.world in
      let g = new_gallery id name description moderator in
      elim (Bool-cases (is_empty name)) [
        | inl blank ↦ failed (ground arith) (ground arith) (ground arith)
        | inr given ↦ elim (Bool-cases (moderator == 0)) [
          | inl nobody ↦ failed (ground arith) (ground arith) (ground arith)
          | inr somebody ↦ elim (Result-cases (repo.create_gallery g w).0) [
            | inr (e, x) ↦
                let kept = laws.create_err g e w x in
                failed (ground arith) (ground arith) (ground arith)
            | inl (g', x) ↦
                let (new, given_id, filled, put) = laws.create_ok g g' w x in
                performed [] (ground arith) (ground (arith, append-nil s.events)) (
                  created g' given (ground arith) given_id (ground arith) filled (ground arith)
                    refl)
          ]
        ]
      ]

  -- If the repository does what its SQL statements say, every command either fails, changes neither
  -- table and hands over no event, or does what the command is for, when it may: a gallery is
  -- created open under an unused identifier, with a name and a moderator; it is deleted with its
  -- members, closed, or alerted by its moderator alone; it is closed and joined only while it is
  -- open; and a closing and an alert hand over one event with the identifier and the name of the
  -- gallery.
  pub execute-Executed : (c : Command) (s : State repo) → Executed c s (execute repo c s)
  unfolding execute
  execute-Executed (creates name description moderator) s =
      create-Executed name description moderator s
  execute-Executed (deletes id caller) s = delete-Executed id caller s
  execute-Executed (closes id caller) s = close-Executed id caller s
  execute-Executed (joins id user) s = join-Executed id user s
  execute-Executed (leaves id user) s = leave-Executed id user s
  execute-Executed (alerts id caller message) s = alert-Executed id caller message s
