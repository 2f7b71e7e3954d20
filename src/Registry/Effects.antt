-- ===== src/Registry/Effects.antt =====
-- What a connection follows, and what the writes of registry.go change of it.
use progetto_sdcc.Prelude.{
  ℕ, ◌≡◌, refl, Bool, true, false, Option, none, some, [], ◌∷◌, arith, ◌==◌, if◌then◌else◌,
  Option-cases, inl, inr, ◌&&◌, ◌∙◌,
}
use progetto_sdcc.Prelude.Dict.{Dict, lookup, has, lookup-insert, lookup-erase, Distinct}
use progetto_sdcc.Registry.{Registry, link, link_all, unlink, unlink_all}
use progetto_sdcc.Registry.Wellformed.{Inv, link-Inv, unlink-Inv}

-- The user behind a live connection.
abbrev pub user_of : Registry → ℕ → Option ℕ
user_of r c = elim (lookup c r.connections) [ none ↦ none | some p ↦ some (r.heap p).user_id ]

-- Whether a live connection follows a gallery.
abbrev pub follows : Registry → ℕ → ℕ → Bool
follows r c g = elim (lookup c r.connections) [ none ↦ false | some p ↦ has g (r.heap p).galleries ]

-- The stream of a live connection.
abbrev pub stream_of : Registry → ℕ → Option ℕ
stream_of r c = elim (lookup c r.connections) [ none ↦ none | some p ↦ some (r.heap p).stream ]

module _ (g c p : ℕ) (r : Registry) (at : lookup c r.connections ≡ some p) (v : Inv r) where
  pub follows-link :
      (d h : ℕ) → follows (link g c p r) d h ≡ (if c == d && g == h then true else follows r d h)
  unfolding link
  follows-link d h = elim (Option-cases (lookup d r.connections)) [
    | inl e ↦ ground arith
    | inr (q, e) ↦
        ground (arith, v.named c p, v.named d q, lookup-insert h g tt (r.heap p).galleries)
  ]

  pub follows-unlink :
      (d h : ℕ) → follows (unlink g c p r) d h ≡ (if c == d && g == h then false else follows r d h)
  unfolding unlink
  follows-unlink d h = elim (Option-cases (lookup d r.connections)) [
    | inl e ↦ ground arith
    | inr (q, e) ↦ ground (arith, v.named c p, v.named d q, lookup-erase h g (r.heap p).galleries)
  ]

pub user_of-link : (g c p d : ℕ) (r : Registry) → user_of (link g c p r) d ≡ user_of r d
unfolding link
user_of-link g c p d r = ground arith

pub user_of-unlink : (g c p d : ℕ) (r : Registry) → user_of (unlink g c p r) d ≡ user_of r d
unfolding unlink
user_of-unlink g c p d r = ground arith

-- The addresses of a loop's list are those of the connections.
abbrev pub Known : Dict ℕ → Registry → Type 0
Known l r = (c p : ℕ) → lookup c l ≡ some p → lookup c r.connections ≡ some p

Known-head :
    (c p : ℕ) (l : Dict ℕ) (r : Registry) → Known ((c, p) ∷ l) r → lookup c r.connections ≡ some p
unfolding lookup
Known-head c p l r k = k c p (ground arith)

Known-tail :
    (c p : ℕ) (l : Dict ℕ) (r : Registry) → Distinct ((c, p) ∷ l) → Known ((c, p) ∷ l) r → Known l r
unfolding lookup
Known-tail c p l r u k d q e = k d q (ground arith)

connections-link : (g c p : ℕ) (r : Registry) → (link g c p r).connections ≡ r.connections
unfolding link
connections-link g c p r = refl

connections-unlink : (g c p : ℕ) (r : Registry) → (unlink g c p r).connections ≡ r.connections
unfolding unlink
connections-unlink g c p r = ground arith

-- What a loop leaves behind: the invariant, the same users, and the new galleries.
pub record Looped (r s : Registry) (g : ℕ) (l : Dict ℕ) (value : Bool) : Type 0 where
  pub inv : Inv s
  pub users : (d : ℕ) → user_of s d ≡ user_of r d
  pub galleries : (d h : ℕ) → follows s d h ≡ (if has d l && g == h then value else follows r d h)

pub link_all-Looped :
    (g : ℕ) (l : Dict ℕ) (r : Registry)
    → Distinct l
    → Known l r
    → Inv r
    → Looped r (link_all g l r) g l true
unfolding link_all lookup
link_all-Looped g [] r u k v = record { inv = v; users = λ d. refl; galleries = λ d h. refl }
link_all-Looped g ((c, p) ∷ l) r u k v =
    let at = Known-head c p l r k in
    let step = link-Inv g c p r at v in
    let rest =
      link_all-Looped g l (link g c p r) u.1
        (λ d q e. rw (connections-link g c p r) (Known-tail c p l r u k d q e)) step in
    record {
      inv = rest.inv;
      users = λ d. rest.users d ∙ user_of-link g c p d r;
      galleries = λ d h. ground (arith, rest.galleries d h, follows-link g c p r at v d h);
    }

pub unlink_all-Looped :
    (g : ℕ) (l : Dict ℕ) (r : Registry)
    → Distinct l
    → Known l r
    → Inv r
    → Looped r (unlink_all g l r) g l false
unfolding unlink_all lookup
unlink_all-Looped g [] r u k v = record { inv = v; users = λ d. refl; galleries = λ d h. refl }
unlink_all-Looped g ((c, p) ∷ l) r u k v =
    let at = Known-head c p l r k in
    let step = unlink-Inv g c p r at v in
    let rest =
      unlink_all-Looped g l (unlink g c p r) u.1
        (λ d q e. rw (connections-unlink g c p r) (Known-tail c p l r u k d q e)) step in
    record {
      inv = rest.inv;
      users = λ d. rest.users d ∙ user_of-unlink g c p d r;
      galleries = λ d h. ground (arith, rest.galleries d h, follows-unlink g c p r at v d h);
    }
