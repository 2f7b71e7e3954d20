-- ===== src/Registry/Leaks.antt =====
-- What stays behind in the maps: an entry of an outer map is there only for the connections in it.
use progetto_sdcc.Prelude.{
  ℕ, ◌≡◌, ◌≢◌, ◌↔◌, refl, false, none, some, List, [], ◌∷◌, arith, Option-cases, Bool-cases, inl,
  inr, ap, ◌∙◌,
}
use progetto_sdcc.Prelude.Dict.{Dict, lookup, has, entries}
use progetto_sdcc.Registry.Nested.{
  Index, NoEmpty, NoEmptyBut, ensure-NoEmptyBut, lookup₂, ensure, drop_entry, put-NoEmpty,
  drop_entry-NoEmpty,
}
use progetto_sdcc.Registry.{
  Registry, new, create_client, subscribe, link, link_all, add_gallery_for_client, unlink,
  unlink_all, unsubscribe, remove_client, drop_entries,
}
use progetto_sdcc.Registry.Wellformed.{Inv}
use progetto_sdcc.Registry.Effects.{follows, user_of}
use progetto_sdcc.Registry.Refinement.{
  Op, creates, subscribes, joins, leaves, removes, apply, run, AllFresh, nobody, run-new,
}

-- No inner map is empty.
pub record Tidy (r : Registry) : Type 0 where
  pub by_gallery : NoEmpty r.galleries
  pub by_user : NoEmpty r.clients

link_all-clients : (g : ℕ) (l : Dict ℕ) (r : Registry) → (link_all g l r).clients ≡ r.clients
unfolding link_all link
link_all-clients g [] r = refl
link_all-clients g ((c, p) ∷ l) r = link_all-clients g l (link g c p r)

link-NoEmpty :
    (g c p : ℕ) (r : Registry) → NoEmptyBut g r.galleries → NoEmpty (link g c p r).galleries
unfolding link
link-NoEmpty g c p r h = put-NoEmpty g c p r.galleries h

link_all-NoEmpty :
    (g : ℕ) (l : Dict ℕ) (r : Registry) → NoEmpty r.galleries → NoEmpty (link_all g l r).galleries
unfolding link_all
link_all-NoEmpty g [] r h = h
link_all-NoEmpty g ((c, p) ∷ l) r h =
    link_all-NoEmpty g l (link g c p r) (link-NoEmpty g c p r (λ k _. h k))

link_some-NoEmpty :
    (g : ℕ) (l : Dict ℕ) (r : Registry)
    → l ≢ []
    → NoEmptyBut g r.galleries
    → NoEmpty (link_all g l r).galleries
unfolding link_all
link_some-NoEmpty g [] r ne h = absurd (ne refl)
link_some-NoEmpty g ((c, p) ∷ l) r ne h =
    link_all-NoEmpty g l (link g c p r) (link-NoEmpty g c p r h)

unlink-Tidy : (g c p : ℕ) (r : Registry) → Tidy r → Tidy (unlink g c p r)
unfolding unlink
unlink-Tidy g c p r t = elim (Bool-cases (has g (r.heap p).galleries)) [
  | inl e ↦
      rw (e, unlink)
        record { by_gallery = drop_entry-NoEmpty g c r.galleries t.by_gallery; by_user = t.by_user }
  | inr e ↦ rw (e, unlink) t
]

unlink_all-Tidy : (g : ℕ) (l : Dict ℕ) (r : Registry) → Tidy r → Tidy (unlink_all g l r)
unfolding unlink_all
unlink_all-Tidy g [] r t = t
unlink_all-Tidy g ((c, p) ∷ l) r t = unlink_all-Tidy g l (unlink g c p r) (unlink-Tidy g c p r t)

drop_entries-NoEmpty :
    (c : ℕ) (gs : Dict (Unit {0})) (d : Index) → NoEmpty d → NoEmpty (drop_entries c gs d)
unfolding drop_entries
drop_entries-NoEmpty c [] d h = h
drop_entries-NoEmpty c ((g, _) ∷ gs) d h =
    drop_entries-NoEmpty c gs (drop_entry g c d) (drop_entry-NoEmpty g c d h)

entries-ne-nil : (m : Dict ℕ) → m ≢ [] → entries m ≢ []
unfolding entries
entries-ne-nil [] h e = h refl
entries-ne-nil (x ∷ m) h e = cc

apply-Tidy : (op : Op) (r : Registry) → Tidy r → Tidy (apply op r)
unfolding apply create_client subscribe add_gallery_for_client unsubscribe remove_client
apply-Tidy (creates c u s) r t = record {
  by_gallery = t.by_gallery;
  by_user = put-NoEmpty u c r.next (ensure u r.clients) (ensure-NoEmptyBut u r.clients t.by_user);
}
apply-Tidy (subscribes c g) r t = elim (Option-cases (lookup c r.connections)) [
  | inl e ↦ rw (e, subscribe) t
  | inr (p, e) ↦ elim (Bool-cases (has g (r.heap p).galleries)) [
    | inl old ↦ rw (e, old, subscribe) t
    | inr new ↦
        rw (e, new, subscribe)
          record {
            by_gallery =
                link-NoEmpty g c p (record r { galleries = ensure g r.galleries })
                  (ensure-NoEmptyBut g r.galleries t.by_gallery);
            by_user = unfold link in t.by_user;
          }
  ]
]
apply-Tidy (joins g u) r t = elim (Option-cases (lookup u r.clients)) [
  | inl e ↦ rw (e, add_gallery_for_client) t
  | inr (m, e) ↦
      rw (e, add_gallery_for_client)
        record {
          by_gallery =
              link_some-NoEmpty g (entries m) (record r { galleries = ensure g r.galleries })
                (entries-ne-nil m (λ h. t.by_user u (e ∙ ap some h)))
                (ensure-NoEmptyBut g r.galleries t.by_gallery);
          by_user =
              rw (link_all-clients g (entries m) (record r { galleries = ensure g r.galleries }))
                t.by_user;
        }
]
apply-Tidy (leaves g u) r t = elim (Option-cases (lookup u r.clients)) [
  | inl e ↦ rw (e, unsubscribe) t
  | inr (m, e) ↦ rw (e, unsubscribe) (unlink_all-Tidy g (entries m) r t)
]
apply-Tidy (removes c) r t = elim (Option-cases (lookup c r.connections)) [
  | inl e ↦ rw (e, remove_client) t
  | inr (p, e) ↦
      rw (e, remove_client)
        record {
          by_gallery =
              drop_entries-NoEmpty c (entries (r.heap p).galleries) r.galleries t.by_gallery;
          by_user = drop_entry-NoEmpty (r.heap p).user_id c r.clients t.by_user;
        }
]

run-Tidy : (ops : List Op) (r : Registry) → Tidy r → Tidy (run ops r)
run-Tidy [] r t = t
run-Tidy (op ∷ ops) r t = run-Tidy ops (apply op r) (apply-Tidy op r t)

new-Tidy : Tidy new
unfolding new lookup
new-Tidy = record { by_gallery = λ k e. cc; by_user = λ k e. cc }

-- A key of a tidy index has an entry.
some_entry :
    (k : ℕ) (d : Index) (m : Dict ℕ)
    → NoEmpty d
    → lookup k d ≡ some m
    → (c : ℕ) × (p : ℕ) × (lookup₂ k c d ≡ some p)
unfolding lookup₂ lookup
some_entry k d [] h e = absurd (h k e)
some_entry k d ((c, p) ∷ m) h e = (c, p, ground arith)

no_gallery :
    (r : Registry) (k : ℕ)
    → Inv r
    → NoEmpty r.galleries
    → (lookup k r.galleries ≡ none) ↔ ((c : ℕ) → follows r c k ≡ false)
unfolding lookup₂ lookup
no_gallery r k v t = (
  λ e c. ground (arith, v.by_gallery k c),
  λ h. elim (Option-cases (lookup k r.galleries)) [
    | inl e ↦ e
    | inr (m, e) ↦
        let (c, p, x) = some_entry k r.galleries m t e in
        absurd (ground (arith, v.by_gallery k c, h c))
  ],
)

no_user :
    (r : Registry) (k : ℕ)
    → Inv r
    → NoEmpty r.clients
    → (lookup k r.clients ≡ none) ↔ ((c : ℕ) → user_of r c ≢ some k)
unfolding lookup₂ lookup
no_user r k v t = (
  λ e c h. ground (arith, v.by_user k c),
  λ h. elim (Option-cases (lookup k r.clients)) [
    | inl e ↦ e
    | inr (m, e) ↦
        let (c, p, x) = some_entry k r.clients m t e in absurd (h c (ground (arith, v.by_user k c)))
  ],
)

-- After any sequence of method calls on a new registry with fresh identifiers, a gallery has an
-- inner map exactly if some connection follows it, and a user has one exactly if some connection is
-- the user's: whoever and whatever has no connection left leaves nothing behind.
pub no_leak :
    (ops : List Op) (k : ℕ)
    → AllFresh ops nobody
    → let r = run ops new in
      ((lookup k r.galleries ≡ none) ↔ ((c : ℕ) → follows r c k ≡ false))
      × ((lookup k r.clients ≡ none) ↔ ((c : ℕ) → user_of r c ≢ some k))
no_leak ops k f =
    let t = run-Tidy ops new new-Tidy in
    let v = (run-new ops f).0 in
    (no_gallery (run ops new) k v t.by_gallery, no_user (run ops new) k v t.by_user)
