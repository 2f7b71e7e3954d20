-- ===== src/Gallery/Command/Interleaving/Writes.antt =====
-- The writes that leave a closed gallery closed.
use progetto_sdcc.Prelude.{
  ℕ, ◌≡◌, refl, sym, subst, Bool, true, false, not, ◌&&◌, none, some, List, [], ◌∷◌, arith, is_ok,
  ◌==◌, if◌then◌else◌, inl, inr, Bool-cases, Result-cases,
}
use progetto_sdcc.Gallery.{Gallery}
use progetto_sdcc.Gallery.Command.{CommandRepository, State, is_closed}
use progetto_sdcc.Gallery.Command.Tables.{Tables, Laws, put_gallery, remove_gallery, set_member}
use progetto_sdcc.Gallery.Command.Transitions.{tables_of}
use progetto_sdcc.Gallery.Command.Closing.{not_free}
use progetto_sdcc.Gallery.Command.Interleaving.{
  Pending, create_write, delete_write, close_write, join_write, leave_write, alert_write, finish,
}

-- The gallery is there, closed and in the hands of the moderator.
pub record Shut (id moderator : ℕ) (t : Tables) : Type 0 where
  pub gallery : Gallery
  pub there : t.galleries id ≡ some gallery
  pub closed : is_closed gallery.gallery_status ≡ true
  pub owned : gallery.moderator_id ≡ moderator

-- A write that leaves a closed gallery closed.
abbrev pub calm : ℕ → ℕ → Pending → Bool
calm id m (create_write g) = true
calm id m (delete_write i) = not (i == id)
calm id m (close_write g) =
    is_closed g.gallery_status && (if g.id == id then g.moderator_id == m else true)
calm id m (join_write i user) = true
calm id m (leave_write i user) = true
calm id m (alert_write i name message) = true

abbrev pub all_calm : ℕ → ℕ → List Pending → Bool
all_calm id m [] = true
all_calm id m (w ∷ ws) = calm id m w && all_calm id m ws

module _ (repo : CommandRepository) (laws : Laws repo) where
  abbrev tables : State repo → Tables
  tables = tables_of repo laws

  put_gallery-Shut :
      (id m : ℕ) (g : Gallery) (t : Tables)
      → calm id m (close_write g) ≡ true
      → Shut id m t
      → Shut id m (put_gallery g t)
  put_gallery-Shut id m g t c s = elim (Bool-cases (id == g.id)) [
    | inl e ↦ record { gallery = g; there = rw e refl; closed = ground arith; owned = ground arith }
    | inr e ↦ record {
      gallery = s.gallery;
      there = rw e s.there;
      closed = s.closed;
      owned = s.owned;
    }
  ]

  put_gallery_elsewhere :
      (id m : ℕ) (g : Gallery) (t : Tables)
      → t.galleries g.id ≡ none
      → Shut id m t
      → Shut id m (put_gallery g t)
  put_gallery_elsewhere id m g t free s = record {
    gallery = s.gallery;
    there = rw (not_free t.galleries g.id id s.gallery s.there free) s.there;
    closed = s.closed;
    owned = s.owned;
  }

  -- A write that may fail, and then changes nothing.
  after_write :
      (id m : ℕ) (good : Bool) (t written t' : Tables)
      → t' ≡ (if good then written else t)
      → Shut id m t
      → Shut id m written
      → Shut id m t'
  after_write id m true t written t' e s s' = subst (Shut id m) (sym e) s'
  after_write id m false t written t' e s s' = subst (Shut id m) (sym e) s

  remove_gallery-Shut :
      (id m i : ℕ) (t : Tables) → (i == id) ≡ false → Shut id m t → Shut id m (remove_gallery i t)
  remove_gallery-Shut id m i t e s = record {
    gallery = s.gallery;
    there = ground (arith, s.there);
    closed = s.closed;
    owned = s.owned;
  }

  set_member-Shut :
      (id m i u : ℕ) (b : Bool) (t : Tables) → Shut id m t → Shut id m (set_member i u b t)
  set_member-Shut id m i u b t s = record {
    gallery = s.gallery;
    there = s.there;
    closed = s.closed;
    owned = s.owned;
  }

  pub finish-Shut :
      (id m : ℕ) (w : Pending) (s : State repo)
      → calm id m w ≡ true
      → Shut id m (tables s)
      → Shut id m (tables (finish repo w s).1)
  unfolding finish
  finish-Shut id m (create_write g) s c shut =
      elim (Result-cases (repo.create_gallery g s.world).0) [
        | inr (e, h) ↦ rw h (subst (Shut id m) (sym (laws.create_err g e s.world h)) shut)
        | inl (g', h) ↦
            let (free, given, like, after) = laws.create_ok g g' s.world h in
            rw h
              (subst (Shut id m) (sym after) (put_gallery_elsewhere id m g' (tables s) free shut))
      ]
  finish-Shut id m (delete_write i) s c shut =
      let t' =
        after_write id m (is_ok (repo.delete_gallery i s.world).0) (tables s)
          (remove_gallery i (tables s)) (laws.tables (repo.delete_gallery i s.world).1)
          (laws.deleted i s.world) shut
          (remove_gallery-Shut id m i (tables s) (ground arith) shut) in
      elim (Result-cases (repo.delete_gallery i s.world).0) [
        | inr (e, h) ↦ rw h t'
        | inl (u, h) ↦ rw h t'
      ]
  finish-Shut id m (close_write g) s c shut =
      let t' =
        after_write id m (is_ok (repo.update_gallery g s.world).0) (tables s)
          (put_gallery g (tables s)) (laws.tables (repo.update_gallery g s.world).1)
          (laws.updated g s.world) shut (put_gallery-Shut id m g (tables s) c shut) in
      elim (Result-cases (repo.update_gallery g s.world).0) [
        | inr (e, h) ↦ rw h t'
        | inl (u, h) ↦ rw h t'
      ]
  finish-Shut id m (join_write i user) s c shut =
      let t' =
        after_write id m (is_ok (repo.join_gallery i user s.world).0) (tables s)
          (set_member i user true (tables s)) (laws.tables (repo.join_gallery i user s.world).1)
          (laws.joined i user s.world) shut (set_member-Shut id m i user true (tables s) shut) in
      elim (Result-cases (repo.join_gallery i user s.world).0) [
        | inr (e, h) ↦ rw h t'
        | inl (u, h) ↦ rw h t'
      ]
  finish-Shut id m (leave_write i user) s c shut =
      let t' =
        after_write id m (is_ok (repo.leave_gallery i user s.world).0) (tables s)
          (set_member i user false (tables s)) (laws.tables (repo.leave_gallery i user s.world).1)
          (laws.left i user s.world) shut (set_member-Shut id m i user false (tables s) shut) in
      elim (Result-cases (repo.leave_gallery i user s.world).0) [
        | inr (e, h) ↦ rw h t'
        | inl (u, h) ↦ rw h t'
      ]
  finish-Shut id m (alert_write i name message) s c shut = shut
