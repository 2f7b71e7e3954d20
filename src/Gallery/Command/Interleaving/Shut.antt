-- ===== src/Gallery/Command/Interleaving/Shut.antt =====
-- What stays true of a closed gallery when commands run at the same time.
use progetto_sdcc.Prelude.{
  ℕ, zero, suc, ◌≡◌, refl, sym, ap, ◌∙◌, subst, Bool, true, false, not, ◌&&◌, some, List, [], ◌∷◌,
  arith, Result, ok, err, is_empty, ◌==◌, ==_iff, inl, inr, Bool-cases, Option-cases, Result-cases,
}
use progetto_sdcc.Gallery.{Gallery, gallery_closed}
use progetto_sdcc.Gallery.Command.{
  CommandRepository, State, is_closed, Command, creates, deletes, closes, joins, leaves, alerts,
}
use progetto_sdcc.Gallery.Command.Tables.{Tables, Laws}
use progetto_sdcc.Gallery.Command.Transitions.{tables_of}
use progetto_sdcc.Gallery.Command.Interleaving.{
  Pending, close_write, begin, System, Label, begins, finishes, step, pick, run_steps,
}
use progetto_sdcc.Gallery.Command.Interleaving.Writes.{Shut, calm, all_calm, finish-Shut}

abbrev deletes_it : ℕ → Command → Bool
deletes_it id (deletes g caller) = g == id
deletes_it id _ = false

module _ (repo : CommandRepository) (laws : Laws repo) where
  -- No deletion of the gallery begins.
  abbrev pub no_deletion : ℕ → List (Label repo) → Bool
  no_deletion id [] = true
  no_deletion id (begins c ∷ ls) = not (deletes_it id c) && no_deletion id ls
  no_deletion id (finishes k ∷ ls) = no_deletion id ls

  abbrev tables : State repo → Tables
  tables = tables_of repo laws

  abbrev calm_result : ℕ → ℕ → Result Pending → Bool
  calm_result id m (err e) = true
  calm_result id m (ok w) = calm id m w

  abbrev CalmlyBegun : ℕ → ℕ → State repo → Result Pending × State repo → Type 0
  CalmlyBegun id m s r = (tables r.1 ≡ tables s) × (calm_result id m r.0 ≡ true)

  -- The gallery that a command has read is the closed one, or another.
  close-calm :
      (id m i now : ℕ) (g : Gallery) (t : Tables)
      → Shut id m t
      → t.galleries i ≡ some g
      → g.id ≡ i
      → calm id m (close_write (record g { gallery_status = gallery_closed; updated_at = now }))
        ≡ true
  close-calm id m i now g t s found named = elim (Bool-cases (g.id == id)) [
    | inr e ↦ rw e refl
    | inl e ↦
        let at : i ≡ id = sym named ∙ (==_iff g.id id).0 e in
        let same : g ≡ s.gallery = ground (arith, ap t.galleries at, found, s.there) in
        rw e (rw (ap (λ (x : Gallery). x.moderator_id) same, s.owned) (ground arith))
  ]

  begin-calm :
      (id m : ℕ) (c : Command) (s : State repo)
      → deletes_it id c ≡ false
      → Shut id m (tables s)
      → CalmlyBegun id m s (begin repo c s)
  unfolding begin
  begin-calm id m (creates name description moderator) s d shut =
      elim (Bool-cases (is_empty name)) [
        | inl h ↦ rw h (refl, refl)
        | inr h ↦ elim (Bool-cases (moderator == 0)) [
          | inl k ↦ rw (h, k) (refl, refl)
          | inr k ↦ rw (h, k) (laws.drawn s.world, refl)
        ]
      ]
  begin-calm id m (deletes i caller) s d shut =
      let same = laws.get_same i s.world in
      elim (Result-cases (repo.get_gallery i s.world).0) [
        | inr (e, h) ↦ rw h (same, refl)
        | inl (g, h) ↦ elim (Bool-cases (g.moderator_id == caller)) [
          | inr k ↦ rw (h, k) (same, refl)
          | inl k ↦ rw (h, k) (same, rw ((laws.get_ok i g s.world h).1, d) refl)
        ]
      ]
  begin-calm id m (closes i caller) s d shut =
      let same = laws.get_same i s.world in
      elim (Result-cases (repo.get_gallery i s.world).0) [
        | inr (e, h) ↦ rw h (same, refl)
        | inl (g, h) ↦ elim (Bool-cases (g.moderator_id == caller)) [
          | inr k ↦ rw (h, k) (same, refl)
          | inl k ↦ elim (Bool-cases (is_closed g.gallery_status)) [
            | inl l ↦ rw (h, k, l) (same, refl)
            | inr l ↦
                let (found, named) = laws.get_ok i g s.world h in
                rw (h, k, l)
                  (
                    same,
                    close-calm id m i (repo.now (repo.get_gallery i s.world).1) g (tables s) shut
                        found named,
                  )
          ]
        ]
      ]
  begin-calm id m (joins i user) s d shut =
      let same = laws.get_same i s.world in
      elim (Result-cases (repo.get_gallery i s.world).0) [
        | inr (e, h) ↦ rw h (same, refl)
        | inl (g, h) ↦ elim (Bool-cases (is_closed g.gallery_status)) [
          | inl l ↦ rw (h, l) (same, refl)
          | inr l ↦ rw (h, l) (same, refl)
        ]
      ]
  begin-calm id m (leaves i user) s d shut = (refl, refl)
  begin-calm id m (alerts i caller message) s d shut =
      let same = laws.get_same i s.world in
      elim (Result-cases (repo.get_gallery i s.world).0) [
        | inr (e, h) ↦ rw h (same, refl)
        | inl (g, h) ↦ elim (Bool-cases (caller == g.moderator_id)) [
          | inr k ↦ rw (h, k) (same, refl)
          | inl k ↦ elim (Bool-cases (is_empty message)) [
            | inl l ↦ rw (h, k, l) (same, refl)
            | inr l ↦ rw (h, k, l) (same, refl)
          ]
        ]
      ]

  pick-calm :
      (id m k : ℕ) (ws rest : List Pending) (w : Pending)
      → pick k ws ≡ some (w, rest)
      → all_calm id m ws ≡ true
      → (calm id m w ≡ true) × (all_calm id m rest ≡ true)
  pick-calm id m k [] rest w e c = absurd cc
  pick-calm id m zero (x ∷ xs) rest w e c =
      let first : x ≡ w = cc in
      let others : xs ≡ rest = cc in (rw (sym first) (ground arith), rw (sym others) (ground arith))
  pick-calm id m (suc k) (x ∷ xs) rest w e c = elim (Option-cases (pick k xs)) [
    | inl h ↦ absurd (ground arith)
    | inr ((y, ys), h) ↦
        let (head, tail) = pick-calm id m k xs ys y h (ground arith) in
        let found : y ≡ w = ground arith in
        let others : (x ∷ ys) ≡ rest = ground arith in
        (rw (sym found) head, rw (sym others) (ground arith))
  ]

  -- While the writes in flight leave a closed gallery closed.
  pub record Quiet (id m : ℕ) (s : System repo) : Type 0 where
    pub shut : Shut id m (tables s.state)
    pub in_flight : all_calm id m s.in_flight ≡ true

  step-Quiet :
      (id m : ℕ) (l : Label repo) (s : System repo)
      → no_deletion id (l ∷ []) ≡ true
      → Quiet id m s
      → Quiet id m (step repo l s)
  unfolding step
  step-Quiet id m (begins c) s d q =
      let (same, calmly) = begin-calm id m c s.state (ground arith) q.shut in
      let still : Shut id m (tables (begin repo c s.state).1) =
        subst (Shut id m) (sym same) q.shut in
      elim (Result-cases (begin repo c s.state).0) [
        | inr (e, h) ↦ rw h (record { shut = still; in_flight = q.in_flight })
        | inl (w, h) ↦
            let w_calm : calm id m w ≡ true = rw h at calmly in
            rw h (record { shut = still; in_flight = ground (arith, w_calm, q.in_flight) })
      ]
  step-Quiet id m (finishes k) s d q = elim (Option-cases (pick k s.in_flight)) [
    | inl h ↦ rw h q
    | inr ((w, rest), h) ↦
        let (w_calm, rest_calm) = pick-calm id m k s.in_flight rest w h q.in_flight in
        rw h (record {
          shut = finish-Shut repo laws id m w s.state w_calm q.shut;
          in_flight = rest_calm;
        })
  ]

  -- If the repository does what its SQL statements say, a closed gallery stays there, closed and in
  -- the hands of its moderator, however commands run at the same time, if no deletion of it begins
  -- or is in flight and the closings in flight are of galleries that their callers moderate.
  pub run_steps-Quiet :
      (ls : List (Label repo)) (id m : ℕ) (s : System repo)
      → no_deletion id ls ≡ true
      → Quiet id m s
      → Quiet id m (run_steps repo ls s)
  run_steps-Quiet [] id m s d q = q
  run_steps-Quiet (begins c ∷ ls) id m s d q =
      run_steps-Quiet ls id m (step repo (begins c) s) (ground arith)
        (step-Quiet id m (begins c) s (ground arith) q)
  run_steps-Quiet (finishes k ∷ ls) id m s d q =
      run_steps-Quiet ls id m (step repo (finishes k) s) (ground arith)
        (step-Quiet id m (finishes k) s (ground arith) q)
