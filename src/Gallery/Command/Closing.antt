-- ===== src/Gallery/Command/Closing.antt =====
-- What stays true of a closed gallery, whatever commands follow.
use progetto_sdcc.Prelude.{
  ℕ, ◌≡◌, refl, Bool, true, false, not, ◌&&◌, Option, some, none, List, [], ◌∷◌, arith, Result,
  ◌==◌, Bool-cases, inl, inr, ap, ==_iff,
}
use progetto_sdcc.Gallery.{Gallery, gallery_open, gallery_closed}
use progetto_sdcc.Gallery.Command.{
  CommandRepository, Event, State, Command, creates, deletes, closes, joins, leaves, alerts,
  execute,
}
use progetto_sdcc.Gallery.Command.Tables.{
  Tables, Laws, Transition, created, deleted, closed, joined, left, alerted,
}
use progetto_sdcc.Gallery.Command.Transitions.{
  tables_of, Executed, failed, performed, execute-Executed,
}

-- The gallery is there, closed, with this moderator and no members but some of the old ones.
pub record StaysClosed (id moderator : ℕ) (t t' : Tables) : Type 0 where
  pub gallery : Gallery
  pub there : t'.galleries id ≡ some gallery
  pub shut : gallery.gallery_status ≡ gallery_closed
  pub owned : gallery.moderator_id ≡ moderator
  pub old_members : (u : ℕ) → t'.members id u ≡ true → t.members id u ≡ true

-- No command of the list deletes the gallery.
abbrev pub spares : ℕ → List Command → Bool
spares id [] = true
spares id (deletes g caller ∷ cs) = not (g == id) && spares id cs
spares id (creates name description moderator ∷ cs) = spares id cs
spares id (closes g caller ∷ cs) = spares id cs
spares id (joins g user ∷ cs) = spares id cs
spares id (leaves g user ∷ cs) = spares id cs
spares id (alerts g caller message ∷ cs) = spares id cs

StaysClosed-trans :
    {id m : ℕ} {a b c : Tables} → StaysClosed id m a b → StaysClosed id m b c → StaysClosed id m a c
StaysClosed-trans x y = record {
  gallery = y.gallery;
  there = y.there;
  shut = y.shut;
  owned = y.owned;
  old_members = λ u h. x.old_members u (y.old_members u h);
}

StaysClosed-same :
    {id m : ℕ} {t t' : Tables} (g : Gallery)
    → t.galleries id ≡ some g
    → g.gallery_status ≡ gallery_closed
    → g.moderator_id ≡ m
    → t' ≡ t
    → StaysClosed id m t t'
StaysClosed-same {t} g there shut owned e =
    rw e record { gallery = g; there = there; shut = shut; owned = owned; old_members = λ u h. h }

-- A closed gallery's identifier is not one that is free or names an open gallery.
pub not_free :
    (f : ℕ → Option Gallery) (i j : ℕ) (g : Gallery) → f j ≡ some g → f i ≡ none → (j == i) ≡ false
not_free f i j g there free = elim (Bool-cases (j == i)) [
  | inr e ↦ e
  | inl e ↦ let same : f j ≡ f i = ap f ((==_iff j i).0 e) in absurd (ground arith)
]

not_open :
    (f : ℕ → Option Gallery) (i j : ℕ) (g h : Gallery)
    → f j ≡ some g
    → g.gallery_status ≡ gallery_closed
    → f i ≡ some h
    → h.gallery_status ≡ gallery_open
    → (j == i) ≡ false
not_open f i j g h there shut found free = elim (Bool-cases (j == i)) [
  | inr e ↦ e
  | inl e ↦ let same : f j ≡ f i = ap f ((==_iff j i).0 e) in absurd (ground arith)
]

-- One command.
Transition-StaysClosed :
    (id : ℕ) (g : Gallery) (c : Command) (t t' : Tables) (es : List Event)
    → t.galleries id ≡ some g
    → g.gallery_status ≡ gallery_closed
    → spares id (c ∷ []) ≡ true
    → Transition c t t' es
    → StaysClosed id g.moderator_id t t'
Transition-StaysClosed id g _ t t' es there shut spared
      (created h given owned drawn new like after none_out) =
    rw after record {
      gallery = g;
      there = rw (not_free t.galleries h.id id g there new) there;
      shut = shut;
      owned = refl;
      old_members = λ u h. h;
    }
Transition-StaysClosed id g (deletes i c) t t' es there shut spared
      (deleted h found mine after none_out) =
    rw after record {
      gallery = g;
      there = ground arith;
      shut = shut;
      owned = refl;
      old_members = λ u x. ground arith;
    }
Transition-StaysClosed id g (closes i c) t t' es there shut spared
      (closed h now found mine open_now named after out) =
    rw after record {
      gallery = g;
      there = rw (named, not_open t.galleries i id g h there shut found open_now) there;
      shut = shut;
      owned = refl;
      old_members = λ u x. x;
    }
Transition-StaysClosed id g (joins i user) t t' es there shut spared
      (joined h found open_now after out) =
    rw after record {
      gallery = g;
      there = there;
      shut = shut;
      owned = refl;
      old_members = λ u x. rw (not_open t.galleries i id g h there shut found open_now) at x;
    }
Transition-StaysClosed id g (leaves i user) t t' es there shut spared (left after out) =
    rw after record {
      gallery = g;
      there = there;
      shut = shut;
      owned = refl;
      old_members = λ u x. ground arith;
    }
Transition-StaysClosed id g (alerts i c m) t t' es there shut spared
      (alerted h found mine said after out) =
    StaysClosed-same g there shut refl after

module _ (repo : CommandRepository) (laws : Laws repo) where
  -- One command after the other, whatever each returns.
  abbrev pub run : List Command → State repo → State repo
  run [] s = s
  run (c ∷ cs) s = run cs (execute repo c s).1

  Executed-StaysClosed :
      (id : ℕ) (g : Gallery) (c : Command) (s : State repo) (r : Result (Unit {0}) × State repo)
      → (tables_of repo laws s).galleries id ≡ some g
      → g.gallery_status ≡ gallery_closed
      → spares id (c ∷ []) ≡ true
      → Executed repo laws c s r
      → StaysClosed id g.moderator_id (tables_of repo laws s) (tables_of repo laws r.1)
  Executed-StaysClosed id g c s r there shut spared (failed e same out) =
      StaysClosed-same g there shut refl same
  Executed-StaysClosed id g c s r there shut spared (performed es e out step) =
      Transition-StaysClosed id g c (tables_of repo laws s) (tables_of repo laws r.1) es there shut
        spared step

  spares-cons :
      (id : ℕ) (c : Command) (cs : List Command)
      → spares id (c ∷ cs) ≡ true
      → (spares id (c ∷ []) ≡ true) × (spares id cs ≡ true)
  spares-cons id (creates n d m) cs h = (refl, h)
  spares-cons id (deletes g c) cs h = ground arith
  spares-cons id (closes g c) cs h = (refl, h)
  spares-cons id (joins g c) cs h = (refl, h)
  spares-cons id (leaves g c) cs h = (refl, h)
  spares-cons id (alerts g c m) cs h = (refl, h)

  -- If the repository does what its SQL statements say, then a closed gallery stays, through every
  -- sequence of commands of which none deletes it, closed, in the hands of its moderator and without
  -- new members.
  pub run-StaysClosed :
      (cs : List Command) (id : ℕ) (g : Gallery) (s : State repo)
      → (tables_of repo laws s).galleries id ≡ some g
      → g.gallery_status ≡ gallery_closed
      → spares id cs ≡ true
      → StaysClosed id g.moderator_id (tables_of repo laws s) (tables_of repo laws (run cs s))
  run-StaysClosed [] id g s there shut spared = StaysClosed-same g there shut refl refl
  run-StaysClosed (c ∷ cs) id g s there shut spared =
      let (now, later) = spares-cons id c cs spared in
      let first =
        Executed-StaysClosed id g c s (execute repo c s) there shut now
          (execute-Executed repo laws c s) in
      let rest =
        run-StaysClosed cs id first.gallery (execute repo c s).1 first.there first.shut later in
      StaysClosed-trans first (rw first.owned at rest)
