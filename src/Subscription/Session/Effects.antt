-- ===== src/Subscription/Session/Effects.antt =====
-- What a session of a client does to the registry.
use progetto_sdcc.Prelude.{
  ℕ, ◌≡◌, refl, sym, ap, ◌∙◌, subst, true, false, ◌&&◌, none, some, List, [], ◌∷◌, map, contains,
  arith, ◌==◌, if◌then◌else◌,
}
use progetto_sdcc.Registry.{Registry, create_client, subscribe, remove_client}
use progetto_sdcc.Registry.Wellformed.{Inv}
use progetto_sdcc.Registry.Effects.{user_of, follows}
use progetto_sdcc.Registry.Refinement.{
  Op, creates, subscribes, joins, leaves, removes, apply, run, spec, spec_run, View, view, is_live,
  AllFresh, run-Refines, apply-Refines,
}
use progetto_sdcc.Subscription.Session.{subscribe_each, open_session}

-- The calls that open a session.
abbrev pub opens : ℕ → ℕ → ℕ → List ℕ → List Op
opens c u s gs = creates c u s ∷ map (subscribes c) gs

run-map :
    (c : ℕ) (gs : List ℕ) (r : Registry) → run (map (subscribes c) gs) r ≡ subscribe_each c gs r
unfolding subscribe_each apply
run-map c [] r = refl
run-map c (g ∷ gs) r = run-map c gs (subscribe c g r)

run-opens :
    (c u s : ℕ) (gs : List ℕ) (r : Registry) → run (opens c u s gs) r ≡ open_session c u s gs r
unfolding open_session apply
run-opens c u s gs r = run-map c gs (create_client c u s r)

AllFresh-map : (c : ℕ) (gs : List ℕ) (v : View) → AllFresh (map (subscribes c) gs) v
AllFresh-map c [] v = tt
AllFresh-map c (g ∷ gs) v = (tt, AllFresh-map c gs (spec (subscribes c g) v))

spec_run-map-user :
    (c d : ℕ) (gs : List ℕ) (v : View) → (spec_run (map (subscribes c) gs) v).user d ≡ v.user d
spec_run-map-user c d [] v = refl
spec_run-map-user c d (g ∷ gs) v = spec_run-map-user c d gs (spec (subscribes c g) v)

spec_run-map-follows :
    (c d h : ℕ) (gs : List ℕ) (v : View)
    → (spec_run (map (subscribes c) gs) v).follows d h
      ≡ (if c == d && (contains h gs && is_live (v.user d)) then true else v.follows d h)
spec_run-map-follows c d h [] v = ground arith
spec_run-map-follows c d h (g ∷ gs) v =
    spec_run-map-follows c d h gs (spec (subscribes c g) v) ∙ ground arith

-- Two views that differ at most at one connection.
pub record Agree (c : ℕ) (v w : View) : Type 0 where
  pub users : (d : ℕ) → (c == d) ≡ false → v.user d ≡ w.user d
  pub galleries : (d h : ℕ) → (c == d) ≡ false → v.follows d h ≡ w.follows d h

Agree-spec : (c : ℕ) (op : Op) (v w : View) → Agree c v w → Agree c (spec op v) (spec op w)
Agree-spec c (creates x u s) v w a = record {
  users = λ d n. ground (arith, a.users d n);
  galleries = λ d h n. ground (arith, a.galleries d h n);
}
Agree-spec c (subscribes x g) v w a = record {
  users = a.users;
  galleries = λ d h n. ground (arith, a.users d n, a.galleries d h n);
}
Agree-spec c (joins g u) v w a = record {
  users = a.users;
  galleries = λ d h n. ground (arith, a.users d n, a.galleries d h n);
}
Agree-spec c (leaves g u) v w a = record {
  users = a.users;
  galleries = λ d h n. ground (arith, a.users d n, a.galleries d h n);
}
Agree-spec c (removes x) v w a = record {
  users = λ d n. ground (arith, a.users d n);
  galleries = λ d h n. ground (arith, a.galleries d h n);
}

Agree-spec_run :
    (c : ℕ) (ops : List Op) (v w : View) → Agree c v w → Agree c (spec_run ops v) (spec_run ops w)
Agree-spec_run c [] v w a = a
Agree-spec_run c (op ∷ ops) v w a =
    Agree-spec_run c ops (spec op v) (spec op w) (Agree-spec c op v w a)

module _ (c : ℕ) (r : Registry) (fresh : user_of r c ≡ none) (v : Inv r) where
  open_session-view :
      (u s : ℕ) (gs : List ℕ)
      → Inv (open_session c u s gs r)
        × (view (open_session c u s gs r) ≡ spec_run (opens c u s gs) (view r))
  open_session-view u s gs =
      subst (λ x. Inv x × (view x ≡ spec_run (opens c u s gs) (view r))) (run-opens c u s gs r)
        (run-Refines (opens c u s gs) r (fresh, AllFresh-map c gs _) v)

  -- Where the new connection follows the galleries, and no other connection changes.
  pub record Opened (u : ℕ) (gs : List ℕ) (r' : Registry) : Type 0 where
    pub inv : Inv r'
    pub users : (d : ℕ) → user_of r' d ≡ (if c == d then some u else user_of r d)
    pub galleries : (d h : ℕ) → follows r' d h ≡ (if c == d then contains h gs else follows r d h)

  pub open_session-Opened : (u s : ℕ) (gs : List ℕ) → Opened u gs (open_session c u s gs r)
  open_session-Opened u s gs =
      let (inv, same) = open_session-view u s gs in
      record {
        inv = inv;
        users = λ d.
            ap (λ (x : View). x.user d) same
            ∙ spec_run-map-user c d gs (spec (creates c u s) (view r));
        galleries = λ d h.
            ap (λ (x : View). x.follows d h) same
            ∙ spec_run-map-follows c d h gs (spec (creates c u s) (view r))
            ∙ ground arith;
      }

  Agree-opens : (u s : ℕ) (gs : List ℕ) → Agree c (spec_run (opens c u s gs) (view r)) (view r)
  Agree-opens u s gs = record {
    users = λ d n. spec_run-map-user c d gs (spec (creates c u s) (view r)) ∙ ground arith;
    galleries =
        λ d h n. spec_run-map-follows c d h gs (spec (creates c u s) (view r)) ∙ ground arith;
  }

  -- Where the connection is gone, and any other connection is as the other calls alone make it.
  pub record Closed (others : List Op) (r' : Registry) : Type 0 where
    pub inv : Inv r'
    pub no_user : user_of r' c ≡ none
    pub no_gallery : (h : ℕ) → follows r' c h ≡ false
    pub agrees : Agree c (view r') (spec_run others (view r))

  pub close-Closed :
      (u s : ℕ) (gs : List ℕ) (others : List Op)
      → AllFresh others (spec_run (opens c u s gs) (view r))
      → Closed others (remove_client c (run others (open_session c u s gs r)))
  unfolding apply
  close-Closed u s gs others f =
      let (inv, same) = open_session-view u s gs in
      let (inv', same') =
        run-Refines others (open_session c u s gs r) (subst (AllFresh others) (sym same) f) inv in
      let (last, gone) = apply-Refines (removes c) (run others (open_session c u s gs r)) tt inv' in
      let all : view (run others (open_session c u s gs r))
          ≡ spec_run others (spec_run (opens c u s gs) (view r)) =
        same' ∙ ap (spec_run others) same in
      let a = Agree-spec_run c others _ _ (Agree-opens u s gs) in
      record {
        inv = last;
        no_user = ap (λ (x : View). x.user c) gone ∙ ground arith;
        no_gallery = λ h. ap (λ (x : View). x.follows c h) gone ∙ ground arith;
        agrees = record {
          users = λ d n.
              ap (λ (x : View). x.user d) gone
              ∙ ground arith
              ∙ ap (λ (x : View). x.user d) all
              ∙ a.users d n;
          galleries = λ d h n.
              ap (λ (x : View). x.follows d h) gone
              ∙ ground arith
              ∙ ap (λ (x : View). x.follows d h) all
              ∙ a.galleries d h n;
        };
      }
