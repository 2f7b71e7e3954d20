-- ===== src/Gallery/Command/Interleaving/Races.antt =====
-- What commands that run at the same time can bring about and no sequence of commands can.
use progetto_sdcc.Prelude.{
  ℕ, ◌≡◌, refl, sym, ap, ◌∙◌, true, false, some, List, [], ◌∷◌, ok, is_ok, ◌==◌, ==_iff,
  if◌then◌else◌,
}
use progetto_sdcc.Gallery.{Gallery, gallery_closed}
use progetto_sdcc.Gallery.Command.{CommandRepository, State, is_closed, Command, closes, joins}
use progetto_sdcc.Gallery.Command.Tables.{Tables, Laws, put_gallery, remove_gallery, set_member}
use progetto_sdcc.Gallery.Command.Transitions.{tables_of}
use progetto_sdcc.Gallery.Command.Interleaving.{
  Pending, delete_write, close_write, join_write, begin, finish, System, Label, begins, finishes,
  step, run_steps,
}

-- A database that does not fail: what is there is read, and writes succeed.
pub record Obliging (repo : CommandRepository) (laws : Laws repo) : Type 0 where
  pub reads :
      (id : ℕ) (g : Gallery) (w : repo.World)
      → (laws.tables w).galleries id ≡ some g
      → g.id ≡ id
      → (repo.get_gallery id w).0 ≡ ok g
  pub updates : (g : Gallery) (w : repo.World) → (repo.update_gallery g w).0 ≡ ok tt
  pub deletes : (id : ℕ) (w : repo.World) → (repo.delete_gallery id w).0 ≡ ok tt
  pub joins : (id user : ℕ) (w : repo.World) → (repo.join_gallery id user w).0 ≡ ok tt

module _ (repo : CommandRepository) (laws : Laws repo) (obliging : Obliging repo laws) (id : ℕ)
    (g : Gallery) (s : State repo) (there : (tables_of repo laws s).galleries id ≡ some g)
    (named : g.id ≡ id) (open_now : is_closed g.gallery_status ≡ false) where
  abbrev alone : System repo
  alone = record { in_flight = []; state = s }

  -- The gallery as the closing writes it.
  abbrev shut_at : ℕ → Gallery
  shut_at now = record g { gallery_status = gallery_closed; updated_at = now }

  first_read : (repo.get_gallery id s.world).0 ≡ ok g
  first_read = obliging.reads id g s.world there named

  second_read : (repo.get_gallery id (repo.get_gallery id s.world).1).0 ≡ ok g
  second_read =
      obliging.reads id g (repo.get_gallery id s.world).1
        (ap (λ (t : Tables). t.galleries id) (laws.get_same id s.world) ∙ there) named

  abbrev world₂ : repo.World
  world₂ = (repo.get_gallery id (repo.get_gallery id s.world).1).1

  moderates : (g.moderator_id == g.moderator_id) ≡ true
  moderates = (==_iff g.moderator_id g.moderator_id).1 refl

  closed_tables :
      (h : Gallery) (w : repo.World)
      → laws.tables (repo.update_gallery h w).1 ≡ put_gallery h (laws.tables w)
  closed_tables h w =
      laws.updated h w
      ∙ ap (λ b. if is_ok b then put_gallery h (laws.tables w) else laws.tables w)
          (obliging.updates h w)

  -- The identifier of a user who joins and the steps of the race.
  abbrev pub join_race : ℕ → List (Label repo)
  join_race user =
      begins (joins id user) ∷ begins (closes id g.moderator_id) ∷ finishes 0 ∷ finishes 0 ∷ []

  abbrev after_reads : State repo
  after_reads = record s { world = world₂ }

  abbrev close_now : Pending
  close_now = close_write (shut_at (repo.now world₂))

  joining_and_closing :
      (user : ℕ)
      → step repo (begins (closes id g.moderator_id)) (step repo (begins (joins id user)) alone)
        ≡ record { in_flight = close_now ∷ join_write id user ∷ []; state = after_reads }
  unfolding step begin
  joining_and_closing user = rw (first_read, open_now, second_read, moderates, open_now) refl

  join_race-writes :
      (user : ℕ)
      → tables_of repo laws
          (step repo (finishes 0) (
            step repo (finishes 0) (record {
              in_flight = close_now ∷ join_write id user ∷ [];
              state = after_reads;
            }))).state
        ≡ set_member id user true (put_gallery (shut_at (repo.now world₂)) (laws.tables world₂))
  unfolding step finish
  join_race-writes user =
      let h = shut_at (repo.now world₂) in
      let w = (repo.update_gallery h world₂).1 in
      rw (obliging.updates h world₂, obliging.joins id user w)
        (laws.joined id user w
          ∙ ap (λ b. if is_ok b then set_member id user true (laws.tables w) else laws.tables w)
              (obliging.joins id user w)
          ∙ ap (set_member id user true) (closed_tables h world₂))

  -- A user who joins while the moderator closes an open gallery, the database serving all calls, is
  -- a member of the gallery after it was closed, if both have read the gallery before either writes
  -- and the closing is written first.
  pub join_race-member :
      (user : ℕ)
      → let t = tables_of repo laws (run_steps repo (join_race user) alone).state in
        (h : Gallery) × (t.galleries id ≡ some h)
        × (h.gallery_status ≡ gallery_closed)
        × (t.members id user ≡ true)
  join_race-member user =
      let last =
        ap (λ x. tables_of repo laws (step repo (finishes 0) (step repo (finishes 0) x)).state)
          (joining_and_closing user)
        ∙ join_race-writes user in
      let here : (id == g.id) ≡ true = (==_iff id g.id).1 (sym named) in
      let me : (id == id) ≡ true = (==_iff id id).1 refl in
      let you : (user == user) ≡ true = (==_iff user user).1 refl in
      (
        shut_at (repo.now world₂),
        ap (λ (t : Tables). t.galleries id) last ∙ rw here refl,
        refl,
        ap (λ (t : Tables). t.members id user) last ∙ rw (me, you) refl,
      )

  abbrev pub deletion_race : List (Label repo)
  deletion_race =
      begins (Command.deletes id g.moderator_id)
      ∷ begins (closes id g.moderator_id)
      ∷ finishes 1
      ∷ finishes 0
      ∷ []

  deleting_and_closing :
      step repo
        (begins (closes id g.moderator_id))
        (step repo (begins (Command.deletes id g.moderator_id)) alone)
      ≡ record { in_flight = close_now ∷ delete_write id ∷ []; state = after_reads }
  unfolding step begin
  deleting_and_closing = rw (first_read, moderates, second_read, moderates, open_now, named) refl

  deletion_race-writes :
      tables_of repo laws
        (step repo (finishes 0) (
          step repo
            (finishes 1)
            (record { in_flight = close_now ∷ delete_write id ∷ []; state = after_reads }))).state
      ≡ put_gallery (shut_at (repo.now world₂)) (remove_gallery id (laws.tables world₂))
  unfolding step finish
  deletion_race-writes =
      let h = shut_at (repo.now world₂) in
      let w = (repo.delete_gallery id world₂).1 in
      rw (obliging.deletes id world₂, obliging.updates h w)
        (closed_tables h w
          ∙ ap (put_gallery h) (
              laws.deleted id world₂
              ∙ ap
                  (λ b.
                    if is_ok b then remove_gallery id (laws.tables world₂) else laws.tables world₂)
                  (obliging.deletes id world₂)))

  -- A gallery that its moderator deletes while closing it, the database serving all calls, is there
  -- after both have returned, closed and without members, if both have read the gallery before
  -- either writes and the deletion is written first.
  pub deletion_race-there :
      (user : ℕ)
      → let t = tables_of repo laws (run_steps repo deletion_race alone).state in
        (h : Gallery) × (t.galleries id ≡ some h)
        × (h.gallery_status ≡ gallery_closed)
        × (t.members id user ≡ false)
  deletion_race-there user =
      let last =
        ap (λ x. tables_of repo laws (step repo (finishes 0) (step repo (finishes 1) x)).state)
          deleting_and_closing
        ∙ deletion_race-writes in
      let here : (id == g.id) ≡ true = (==_iff id g.id).1 (sym named) in
      let me : (id == id) ≡ true = (==_iff id id).1 refl in
      (
        shut_at (repo.now world₂),
        ap (λ (t : Tables). t.galleries id) last ∙ rw here refl,
        refl,
        ap (λ (t : Tables). t.members id user) last ∙ rw me refl,
      )
