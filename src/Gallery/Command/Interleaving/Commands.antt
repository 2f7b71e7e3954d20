-- ===== src/Gallery/Command/Interleaving/Commands.antt =====
-- A command is its checks and then its write.
use progetto_sdcc.Prelude.{◌≡◌, refl, is_empty, ◌==◌, inl, inr, Bool-cases, Result-cases}
use progetto_sdcc.Prelude.Action.{and_then}
use progetto_sdcc.Gallery.Command.{
  CommandRepository, State, is_closed, Command, creates, deletes, closes, joins, leaves, alerts,
  execute, create_gallery, delete_gallery, close_gallery, join_gallery, leave_gallery,
  send_moderator_alert,
}
use progetto_sdcc.Gallery.Command.Interleaving.{begin, finish}

module _ (repo : CommandRepository) where
  -- A command that runs alone is its checks and then, if they succeed, its write: it returns the error
  -- of the checks or what the write returns, and leaves the state that they leave.
  pub execute-begin :
      (c : Command) (s : State repo) → execute repo c s ≡ and_then (begin repo c s) (finish repo)
  unfolding execute begin finish create_gallery delete_gallery close_gallery join_gallery
      leave_gallery send_moderator_alert
  execute-begin (creates name description moderator) s = elim (Bool-cases (is_empty name)) [
    | inl h ↦ rw h refl
    | inr h ↦ elim (Bool-cases (moderator == 0)) [ inl k ↦ rw (h, k) refl | inr k ↦ rw (h, k) refl ]
  ]
  execute-begin (deletes id caller) s = elim (Result-cases (repo.get_gallery id s.world).0) [
    | inr (e, h) ↦ rw h refl
    | inl (g, h) ↦ elim (Bool-cases (g.moderator_id == caller)) [
      | inl k ↦ rw (h, k) refl
      | inr k ↦ rw (h, k) refl
    ]
  ]
  execute-begin (closes id caller) s = elim (Result-cases (repo.get_gallery id s.world).0) [
    | inr (e, h) ↦ rw h refl
    | inl (g, h) ↦ elim (Bool-cases (g.moderator_id == caller)) [
      | inr k ↦ rw (h, k) refl
      | inl k ↦ elim (Bool-cases (is_closed g.gallery_status)) [
        | inl l ↦ rw (h, k, l) refl
        | inr l ↦ rw (h, k, l) refl
      ]
    ]
  ]
  execute-begin (joins id user) s = elim (Result-cases (repo.get_gallery id s.world).0) [
    | inr (e, h) ↦ rw h refl
    | inl (g, h) ↦ elim (Bool-cases (is_closed g.gallery_status)) [
      | inl l ↦ rw (h, l) refl
      | inr l ↦ rw (h, l) refl
    ]
  ]
  execute-begin (leaves id user) s = refl
  execute-begin (alerts id caller message) s = elim (Result-cases (repo.get_gallery id s.world).0) [
    | inr (e, h) ↦ rw h refl
    | inl (g, h) ↦ elim (Bool-cases (caller == g.moderator_id)) [
      | inr k ↦ rw (h, k) refl
      | inl k ↦ elim (Bool-cases (is_empty message)) [
        | inl l ↦ rw (h, k, l) refl
        | inr l ↦ rw (h, k, l) refl
      ]
    ]
  ]
