-- ===== src/Registry/Interleaving.antt =====
-- Notify while other methods run: between its snapshot and its sends it holds no lock.
use progetto_sdcc.Prelude.{
  ℕ, refl, Option, List, [], ◌∷◌, arith, Option-cases, Bool-cases, inl, inr, ◌∙◌, Error,
}
use progetto_sdcc.Prelude.Dict.{Dict, lookup, has, entries}
use progetto_sdcc.Registry.Nested.{ensure}
use progetto_sdcc.Registry.{
  Registry, create_client, subscribe, link, link_all, add_gallery_for_client, unlink, unlink_all,
  unsubscribe, remove_client, targets, deliver,
}
use progetto_sdcc.Registry.Wellformed.{Inv}
use progetto_sdcc.Registry.Delivery.{Later, Delivered, deliver-Delivered}
use progetto_sdcc.Registry.Refinement.{
  Op, creates, subscribes, joins, leaves, removes, apply, run, view, AllFresh, apply-Refines,
}

Later-refl : (r : Registry) → Later r r
Later-refl r = record { grown = omega arith; same_id = λ p h. refl; same_stream = λ p h. refl }

Later-trans : (r s t : Registry) → Later r s → Later s t → Later r t
Later-trans r s t a b = record {
  grown = omega (arith, a.grown, b.grown);
  same_id = λ p h. b.same_id p (omega (arith, a.grown)) ∙ a.same_id p h;
  same_stream = λ p h. b.same_stream p (omega (arith, a.grown)) ∙ a.same_stream p h;
}

link-Later : (g c p : ℕ) (r : Registry) → Later r (link g c p r)
unfolding link
link-Later g c p r = record {
  grown = omega arith;
  same_id = λ q h. ground arith;
  same_stream = λ q h. ground arith;
}

unlink-Later : (g c p : ℕ) (r : Registry) → Later r (unlink g c p r)
unfolding unlink
unlink-Later g c p r = record {
  grown = ground arith;
  same_id = λ q h. ground arith;
  same_stream = λ q h. ground arith;
}

link_all-Later : (g : ℕ) (l : Dict ℕ) (r : Registry) → Later r (link_all g l r)
unfolding link_all
link_all-Later g [] r = Later-refl r
link_all-Later g ((c, p) ∷ l) r =
    Later-trans r (link g c p r) _ (link-Later g c p r) (link_all-Later g l (link g c p r))

unlink_all-Later : (g : ℕ) (l : Dict ℕ) (r : Registry) → Later r (unlink_all g l r)
unfolding unlink_all
unlink_all-Later g [] r = Later-refl r
unlink_all-Later g ((c, p) ∷ l) r =
    Later-trans r (unlink g c p r) _ (unlink-Later g c p r) (unlink_all-Later g l (unlink g c p r))

ensured-Later : (g : ℕ) (r : Registry) → Later r (record r { galleries = ensure g r.galleries })
ensured-Later g r = record { grown = omega arith; same_id = λ p h. refl; same_stream = λ p h. refl }

-- Every method keeps the identifier and the stream of the clients that were allocated before.
apply-Later : (op : Op) (r : Registry) → Later r (apply op r)
unfolding apply create_client subscribe add_gallery_for_client unsubscribe remove_client
apply-Later (creates c u s) r = record {
  grown = omega arith;
  same_id = λ p h. ground arith;
  same_stream = λ p h. ground arith;
}
apply-Later (subscribes c g) r = elim (Option-cases (lookup c r.connections)) [
  | inl e ↦ rw (e, subscribe) (Later-refl r)
  | inr (p, e) ↦ elim (Bool-cases (has g (r.heap p).galleries)) [
    | inl old ↦ rw (e, old, subscribe) (Later-refl r)
    | inr new ↦ rw (e, new, subscribe) (Later-trans r _ _ (ensured-Later g r) (link-Later g c p _))
  ]
]
apply-Later (joins g u) r = elim (Option-cases (lookup u r.clients)) [
  | inl e ↦ rw (e, add_gallery_for_client) (Later-refl r)
  | inr (m, e) ↦
      rw (e, add_gallery_for_client)
        (Later-trans r _ _ (ensured-Later g r) (link_all-Later g (entries m) _))
]
apply-Later (leaves g u) r = elim (Option-cases (lookup u r.clients)) [
  | inl e ↦ rw (e, unsubscribe) (Later-refl r)
  | inr (m, e) ↦ rw (e, unsubscribe) (unlink_all-Later g (entries m) r)
]
apply-Later (removes c) r = record {
  grown = ground arith;
  same_id = λ p h. ground arith;
  same_stream = λ p h. ground arith;
}

run-Later :
    (ops : List Op) (r : Registry)
    → AllFresh ops (view r)
    → Inv r
    → Inv (run ops r) × Later r (run ops r)
run-Later [] r f v = (v, Later-refl r)
run-Later (op ∷ ops) r (f, fs) v =
    let (v', e) = apply-Refines op r f v in
    let (last, later) = run-Later ops (apply op r) (rw e fs) v' in
    (last, Later-trans r (apply op r) _ (apply-Later op r) later)

-- Whatever methods run between the snapshot of Notify and its sends, one send is made to each
-- connection that followed the gallery at the snapshot and to no other, with its outcome in the
-- log, and afterwards exactly the connections to which a send failed are gone from the registry as
-- those methods left it, which is well-formed.
pub notify-Delivered :
    {N : Type 0} (send : ℕ → N → Option Error) (n : N) (g : ℕ) (r : Registry) (ops : List Op)
    → Inv r
    → AllFresh ops (view r)
    → Delivered send n g r (run ops r) (deliver send n (targets g r) (run ops r))
notify-Delivered send n g r ops v f =
    let (w, later) = run-Later ops r f v in deliver-Delivered send n g r (run ops r) v w later
