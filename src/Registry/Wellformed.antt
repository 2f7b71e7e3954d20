-- ===== src/Registry/Wellformed.antt =====
-- The invariant that ties the three maps and the clients together.
use progetto_sdcc.Prelude.{
  ℕ, ◌<◌, ◌≡◌, refl, Option, none, some, [], ◌∷◌, arith, ◌==◌, if◌then◌else◌, Option-cases, inl,
  inr, Bool-cases, ◌&&◌, ◌∙◌,
}
use progetto_sdcc.Prelude.Dict.{
  Dict, lookup, erase, has, entries, lookup-entries, lookup-insert, lookup-erase,
}
use progetto_sdcc.Registry.Nested.{
  Index, lookup₂, ensure, drop_entry, lookup₂-ensure, lookup₂-put, lookup₂-drop_entry,
}
use progetto_sdcc.Registry.{
  Registry, new, store, unfollow, create_client, link, unlink, drop_entries, remove_client,
}

-- The address of a connection that follows the gallery.
abbrev pub following : Registry → ℕ → ℕ → Option ℕ
following r g c = elim (lookup c r.connections) [
  | none ↦ none
  | some p ↦ if has g (r.heap p).galleries then some p else none
]

-- The address of a connection of the user.
abbrev pub owned : Registry → ℕ → ℕ → Option ℕ
owned r u c = elim (lookup c r.connections) [
  | none ↦ none
  | some p ↦ if (r.heap p).user_id == u then some p else none
]

pub record Inv (r : Registry) : Type 0 where
  -- A connection's address holds the client with that identifier.
  pub named : (c p : ℕ) → lookup c r.connections ≡ some p → (r.heap p).id ≡ c
  pub allocated : (c p : ℕ) → lookup c r.connections ≡ some p → p < r.next
  -- The index by gallery lists the connections whose client has the gallery, and no others.
  pub by_gallery : (g c : ℕ) → lookup₂ g c r.galleries ≡ following r g c
  -- The index by user lists the connections whose client has the user, and no others.
  pub by_user : (u c : ℕ) → lookup₂ u c r.clients ≡ owned r u c

pub new-Inv : Inv new
unfolding new lookup₂ lookup
new-Inv = record {
  named = λ c p e. cc;
  allocated = λ c p e. cc;
  by_gallery = λ g c. refl;
  by_user = λ u c. refl;
}

-- A statement about a connection is proved for an unknown one and for one at a known address.
module _ (c u s : ℕ) (r : Registry) (fresh : lookup c r.connections ≡ none) (v : Inv r) where
  create_client-named :
      (d p : ℕ)
      → lookup d (create_client c u s r).connections ≡ some p
      → ((create_client c u s r).heap p).id ≡ d
  unfolding create_client
  create_client-named d p e =
      ground (arith, v.named d p, v.allocated d p, lookup-insert d c r.next r.connections)

  create_client-allocated :
      (d p : ℕ)
      → lookup d (create_client c u s r).connections ≡ some p
      → p < (create_client c u s r).next
  unfolding create_client
  create_client-allocated d p e =
      ground (arith, v.allocated d p, lookup-insert d c r.next r.connections)

  create_client-by_gallery :
      (g d : ℕ)
      → lookup₂ g d (create_client c u s r).galleries ≡ following (create_client c u s r) g d
  unfolding create_client lookup
  create_client-by_gallery g d = elim (Option-cases (lookup d r.connections)) [
    | inl e ↦ ground (arith, v.by_gallery g d, lookup-insert d c r.next r.connections)
    | inr (p, e) ↦
        ground (arith, v.by_gallery g d, v.allocated d p, lookup-insert d c r.next r.connections)
  ]

  create_client-by_user :
      (w d : ℕ) → lookup₂ w d (create_client c u s r).clients ≡ owned (create_client c u s r) w d
  unfolding create_client
  create_client-by_user w d = elim (Option-cases (lookup d r.connections)) [
    | inl e ↦ ground (
      arith,
      v.by_user w d,
      lookup-insert d c r.next r.connections,
      lookup₂-put w d u c r.next (ensure u r.clients),
      lookup₂-ensure w d u r.clients,
    )
    | inr (p, e) ↦ ground (
      arith,
      v.by_user w d,
      v.allocated d p,
      lookup-insert d c r.next r.connections,
      lookup₂-put w d u c r.next (ensure u r.clients),
      lookup₂-ensure w d u r.clients,
    )
  ]

  pub create_client-Inv : Inv (create_client c u s r)
  create_client-Inv = record {
    named = create_client-named;
    allocated = create_client-allocated;
    by_gallery = create_client-by_gallery;
    by_user = create_client-by_user;
  }

-- A connection at address `p` starts or stops to follow a gallery.
module _ (g c p : ℕ) (r : Registry) (at : lookup c r.connections ≡ some p) (v : Inv r) where
  pub link-Inv : Inv (link g c p r)
  unfolding link
  link-Inv = record {
    named = λ d q e. ground (arith, v.named d q);
    allocated = v.allocated;
    by_gallery = λ h d. elim (Option-cases (lookup d r.connections)) [
      | inl e ↦ ground (arith, v.by_gallery h d, lookup₂-put h d g c p r.galleries)
      | inr (q, e) ↦ ground (
        arith,
        v.by_gallery h d,
        v.named c p,
        v.named d q,
        lookup₂-put h d g c p r.galleries,
        lookup-insert h g tt (r.heap p).galleries,
      )
    ];
    by_user = λ w d. elim (Option-cases (lookup d r.connections)) [
      | inl e ↦ ground (arith, v.by_user w d)
      | inr (q, e) ↦ ground (arith, v.by_user w d)
    ];
  }

  unlinked : Registry
  unlinked = record r {
    heap = store r.heap p (unfollow g (r.heap p));
    galleries = drop_entry g c r.galleries;
  }

  unlinked-Inv : Inv unlinked
  unfolding unlinked
  unlinked-Inv = record {
    named = λ d q e. ground (arith, v.named d q);
    allocated = v.allocated;
    by_gallery = λ h d. elim (Option-cases (lookup d r.connections)) [
      | inl e ↦ ground (arith, v.by_gallery h d, lookup₂-drop_entry h d g c r.galleries)
      | inr (q, e) ↦ ground (
        arith,
        v.by_gallery h d,
        v.named c p,
        v.named d q,
        lookup₂-drop_entry h d g c r.galleries,
        lookup-erase h g (r.heap p).galleries,
      )
    ];
    by_user = λ w d. elim (Option-cases (lookup d r.connections)) [
      | inl e ↦ ground (arith, v.by_user w d)
      | inr (q, e) ↦ ground (arith, v.by_user w d)
    ];
  }

  pub unlink-Inv : Inv (unlink g c p r)
  unfolding unlink unlinked
  unlink-Inv = elim (Bool-cases (has g (r.heap p).galleries)) [
    | inl e ↦ rw (e, unlink) unlinked-Inv
    | inr e ↦ rw (e, unlink) v
  ]

pub ensure-Inv :
    (g : ℕ) (r : Registry) → Inv r → Inv (record r { galleries = ensure g r.galleries })
ensure-Inv g r v = record {
  named = v.named;
  allocated = v.allocated;
  by_gallery = λ h d. lookup₂-ensure h d g r.galleries ∙ v.by_gallery h d;
  by_user = v.by_user;
}

lookup₂-drop_entries :
    (h d c : ℕ) (gs : Dict (Unit {0})) (i : Index)
    → lookup₂ h d (drop_entries c gs i) ≡ (if has h gs && c == d then none else lookup₂ h d i)
unfolding drop_entries lookup
lookup₂-drop_entries h d c [] i = refl
lookup₂-drop_entries h d c ((g, u) ∷ gs) i =
    ground (arith, lookup₂-drop_entries h d c gs (drop_entry g c i), lookup₂-drop_entry h d g c i)

module _ (c p : ℕ) (r : Registry) (at : lookup c r.connections ≡ some p) (v : Inv r) where
  removed : Registry
  removed = record r {
    galleries = drop_entries c (entries (r.heap p).galleries) r.galleries;
    clients = drop_entry (r.heap p).user_id c r.clients;
    connections = erase c r.connections;
  }

  removed-by_gallery : (h d : ℕ) → lookup₂ h d removed.galleries ≡ following removed h d
  unfolding removed
  removed-by_gallery h d = ground (
    arith,
    v.by_gallery h d,
    lookup-erase d c r.connections,
    lookup₂-drop_entries h d c (entries (r.heap p).galleries) r.galleries,
    lookup-entries h (r.heap p).galleries,
  )

  removed-Inv : Inv removed
  unfolding removed
  removed-Inv = record {
    named = λ d q e. ground (arith, v.named d q, lookup-erase d c r.connections);
    allocated = λ d q e. ground (arith, v.allocated d q, lookup-erase d c r.connections);
    by_gallery = removed-by_gallery;
    by_user = λ w d. ground (
      arith,
      v.by_user w d,
      lookup-erase d c r.connections,
      lookup₂-drop_entry w d (r.heap p).user_id c r.clients,
    );
  }

pub remove_client-Inv : (c : ℕ) (r : Registry) → Inv r → Inv (remove_client c r)
unfolding remove_client removed
remove_client-Inv c r v = elim (Option-cases (lookup c r.connections)) [
  | inl e ↦ rw (e, remove_client) v
  | inr (p, e) ↦ rw (e, remove_client) (removed-Inv c p r e v)
]
