-- ===== src/Gallery/Api/Authorization.antt =====
-- Who can change what through the command handlers of the gallery service.
use text.Mathlib.Text.{◌==◌ as str_eq}
use progetto_sdcc.Prelude.{
  ℕ, ◌≡◌, refl, ap, String, Bool, true, false, Option, none, some, List, Result, arith, inl, inr,
  Bool-cases, Result-cases, ◌==◌,
}
use progetto_sdcc.Prelude.Action.{Action}
use progetto_sdcc.Auth.{Claims}
use progetto_sdcc.Gallery.{Gallery}
use progetto_sdcc.Gallery.Command.{
  CommandRepository, Event, State, Command, creates, deletes, closes, joins, leaves, alerts,
  execute,
}
use progetto_sdcc.Gallery.Command as Command
use progetto_sdcc.Gallery.Command.Tables.{
  Tables, Laws, Transition, created, deleted, closed, joined, left, alerted,
}
use progetto_sdcc.Gallery.Command.Transitions.{
  tables_of, Executed, failed, performed, execute-Executed,
}
use progetto_sdcc.Gallery.Query.{Uuids}
use progetto_sdcc.Gallery.Api.Commands.{
  Request, create_request, delete_request, close_request, join_request, leave_request,
  alert_request, for_gallery, serve, create_gallery, delete_gallery, close_gallery, join_gallery,
  leave_gallery, send_moderator_alert,
}
use progetto_sdcc.Gallery.Api.{moderator_id_from_context, parse_uuid}

-- Why a gallery's row and a user's membership of it may have changed.
pub data Justified (claims : Option Claims) (id user : ℕ) (t t' : Tables) : Type 0 where
  same :
      t'.galleries id ≡ t.galleries id
      → t'.members id user ≡ t.members id user
      → Justified claims id user t t'
  own_membership :
      (c : Claims)
      → claims ≡ some c
      → c.user_id ≡ user
      → t'.galleries id ≡ t.galleries id
      → Justified claims id user t t'
  by_moderator :
      (c : Claims) (g : Gallery)
      → claims ≡ some c
      → t.galleries id ≡ some g
      → g.moderator_id ≡ c.user_id
      → Justified claims id user t t'
  by_creator :
      (c : Claims) (g : Gallery)
      → claims ≡ some c
      → str_eq c.role "ROLE_MODERATOR" ≡ true
      → t.galleries id ≡ none
      → t'.galleries id ≡ some g
      → g.moderator_id ≡ c.user_id
      → t'.members id user ≡ t.members id user
      → Justified claims id user t t'

-- The command of a request of this caller for this gallery.
abbrev command_of : Request → Claims → ℕ → Command
command_of (create_request name description) c id = creates name description c.user_id
command_of (delete_request gallery) c id = deletes id c.user_id
command_of (close_request gallery) c id = closes id c.user_id
command_of (join_request gallery) c id = joins id c.user_id
command_of (leave_request gallery) c id = leaves id c.user_id
command_of (alert_request gallery body) c id = alerts id c.user_id body

abbrev is_create : Request → Bool
is_create (create_request name description) = true
is_create _ = false

Transition-Justified :
    (q : Request) (c : Claims) (i id user : ℕ) (t t' : Tables) (es : List Event)
    → (is_create q ≡ true → str_eq c.role "ROLE_MODERATOR" ≡ true)
    → Transition (command_of q c i) t t' es
    → Justified (some c) id user t t'
Transition-Justified (create_request n d) c i id user t t' es role
      (created g given owned drawn new like after out) =
    let mine : g.moderator_id ≡ c.user_id = ap (λ (a : Gallery). a.moderator_id) like in
    elim (Bool-cases (id == g.id)) [
      | inl e ↦
          let here : id ≡ g.id = ground arith in
          by_creator c g refl (role refl) (rw here new) (rw after (ground arith)) mine
            (rw after refl)
      | inr e ↦ same (rw after (ground arith)) (rw after refl)
    ]
Transition-Justified (delete_request x) c i id user t t' es role (deleted g found mine after out) =
    elim (Bool-cases (id == i)) [
      | inl e ↦ let here : id ≡ i = ground arith in by_moderator c g refl (rw here found) mine
      | inr e ↦ same (rw after (ground arith)) (rw after (ground arith))
    ]
Transition-Justified (close_request x) c i id user t t' es role
      (closed g now found mine free named after out) =
    elim (Bool-cases (id == i)) [
      | inl e ↦ let here : id ≡ i = ground arith in by_moderator c g refl (rw here found) mine
      | inr e ↦ same (rw after (ground arith)) (rw after refl)
    ]
Transition-Justified (join_request x) c i id user t t' es role (joined g found free after out) =
    elim (Bool-cases (user == c.user_id)) [
      | inl e ↦ own_membership c refl (ground arith) (rw after refl)
      | inr e ↦ same (rw after refl) (rw after (ground arith))
    ]
Transition-Justified (leave_request x) c i id user t t' es role (left after out) =
    elim (Bool-cases (user == c.user_id)) [
      | inl e ↦ own_membership c refl (ground arith) (rw after refl)
      | inr e ↦ same (rw after refl) (rw after (ground arith))
    ]
Transition-Justified (alert_request x b) c i id user t t' es role
      (alerted g found mine said after out) =
    same (rw after refl) (rw after refl)

module _ (uuids : Uuids) (repo : CommandRepository) (laws : Laws repo) where
  -- What holds of a command's end holds of a request's, whose state it is.
  Executed-Justified :
      (q : Request) (c : Claims) (i id user : ℕ) (s : State repo)
      (r : Result (Unit {0}) × State repo)
      → (is_create q ≡ true → str_eq c.role "ROLE_MODERATOR" ≡ true)
      → Executed repo laws (command_of q c i) s r
      → Justified (some c) id user (tables_of repo laws s) (tables_of repo laws r.1)
  Executed-Justified q c i id user s r role (failed e kept out) =
      same (ap (λ (t : Tables). t.galleries id) kept) (ap (λ (t : Tables). t.members id user) kept)
  Executed-Justified q c i id user s r role (performed es e out step) =
      Transition-Justified q c i id user (tables_of repo laws s) (tables_of repo laws r.1) es role
        step

  create-Justified :
      (c : Claims) (name description : String) (id user : ℕ) (s : State repo)
      → Justified
          (some c)
          id
          user
          (tables_of repo laws s)
          (tables_of repo laws (serve uuids repo (some c) (create_request name description) s).1)
  unfolding serve create_gallery moderator_id_from_context execute
  create-Justified c name description id user s =
      elim (Bool-cases (str_eq c.role "ROLE_MODERATOR")) [
        | inr e ↦ same (ground arith) (ground arith)
        | inl e ↦
            let x = execute repo (creates name description c.user_id) s in
            let state : (serve uuids repo (some c) (create_request name description) s).1 ≡ x.1 =
              elim (Result-cases (Command.create_gallery repo name description c.user_id s).0) [
                | inl (g, h) ↦ ground arith
                | inr (er, h) ↦ ground arith
              ] in
            rw state (
              Executed-Justified (create_request name description) c 0 id user s x (λ h. e)
                (execute-Executed repo laws (creates name description c.user_id) s))
      ]

  others-Justified :
      (q : Request) (gallery : String) (c : Claims) (id user : ℕ) (s : State repo)
      (f : ℕ → ℕ → Action (State repo) (Unit {0}))
      → is_create q ≡ false
      → ((i : ℕ) → Executed repo laws (command_of q c i) s (f i c.user_id s))
      → Justified
          (some c)
          id
          user
          (tables_of repo laws s)
          (tables_of repo laws (for_gallery uuids repo (some c) gallery f s).1)
  others-Justified q gallery c id user s f other step =
      elim (Result-cases (parse_uuid uuids gallery)) [
        | inr (e, h) ↦ same (ground arith) (ground arith)
        | inl (i, h) ↦
            let state : for_gallery uuids repo (some c) gallery f s ≡ f i c.user_id s =
              ground arith in
            rw state (
              Executed-Justified q c i id user s (f i c.user_id s) (λ x. absurd (ground arith))
                (step i))
      ]

  nobody-Justified :
      (q : Request) (id user : ℕ) (s : State repo)
      → Justified none id user
          (tables_of repo laws s)
          (tables_of repo laws (serve uuids repo none q s).1)
  unfolding serve create_gallery moderator_id_from_context delete_gallery close_gallery join_gallery
      leave_gallery send_moderator_alert
  nobody-Justified (create_request name description) id user s = same refl refl
  nobody-Justified (delete_request gallery) id user s = same refl refl
  nobody-Justified (close_request gallery) id user s = same refl refl
  nobody-Justified (join_request gallery) id user s = same refl refl
  nobody-Justified (leave_request gallery) id user s = same refl refl
  nobody-Justified (alert_request gallery body) id user s = same refl refl

  -- If the repository does what its SQL statements say, a request to a command handler leaves a
  -- gallery's row and a user's membership of it as they are, except that an authentic caller can
  -- change his own membership, that the gallery's moderator can change its row and its members, and
  -- that a caller with the role of a moderator can create it, with himself as the moderator.
  pub serve-Justified :
      (claims : Option Claims) (q : Request) (id user : ℕ) (s : State repo)
      → Justified claims id user
          (tables_of repo laws s)
          (tables_of repo laws (serve uuids repo claims q s).1)
  unfolding serve delete_gallery close_gallery join_gallery leave_gallery send_moderator_alert
      execute
  serve-Justified none q id user s = nobody-Justified q id user s
  serve-Justified (some c) (create_request name description) id user s =
      create-Justified c name description id user s
  serve-Justified (some c) (delete_request x) id user s =
      others-Justified (delete_request x) x c id user s (Command.delete_gallery repo) refl
        (λ i. execute-Executed repo laws (deletes i c.user_id) s)
  serve-Justified (some c) (close_request x) id user s =
      others-Justified (close_request x) x c id user s (Command.close_gallery repo) refl
        (λ i. execute-Executed repo laws (closes i c.user_id) s)
  serve-Justified (some c) (join_request x) id user s =
      others-Justified (join_request x) x c id user s (Command.join_gallery repo) refl
        (λ i. execute-Executed repo laws (joins i c.user_id) s)
  serve-Justified (some c) (leave_request x) id user s =
      others-Justified (leave_request x) x c id user s (Command.leave_gallery repo) refl
        (λ i. execute-Executed repo laws (leaves i c.user_id) s)
  serve-Justified (some c) (alert_request x body) id user s =
      others-Justified (alert_request x body) x c id user s
        (λ i caller. Command.send_moderator_alert repo i caller body) refl
        (λ i. execute-Executed repo laws (alerts i c.user_id body) s)
