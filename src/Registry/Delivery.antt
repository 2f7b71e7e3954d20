-- ===== src/Registry/Delivery.antt =====
-- Notify: the snapshot under the read lock, and the sends outside it.
use progetto_sdcc.Prelude.{
  ℕ, ◌≤◌, ◌<◌, ◌≡◌, refl, Bool, true, false, Option, none, some, [], ◌∷◌, arith, ◌==◌,
  if◌then◌else◌, Option-cases, inl, inr, ap, Error,
}
use progetto_sdcc.Prelude.Dict.{
  Dict, lookup, has, entries, lookup-erase, lookup-entries, entries-Distinct, Distinct,
}
use progetto_sdcc.Registry.Nested
use progetto_sdcc.Registry.Nested.{lookup₂}
use progetto_sdcc.Registry.{Registry, remove_client, values, targets, deliver}
use progetto_sdcc.Registry.Wellformed.{Inv, remove_client-Inv}
use progetto_sdcc.Registry.Effects.{user_of, follows, stream_of}

-- A later state of the same registry: whatever methods ran in between, the clients that were
-- allocated keep their identifier and their stream.
pub record Later (r s : Registry) : Type 0 where
  pub grown : r.next ≤ s.next
  pub same_id : (p : ℕ) → p < r.next → (s.heap p).id ≡ (r.heap p).id
  pub same_stream : (p : ℕ) → p < r.next → (s.heap p).stream ≡ (r.heap p).stream

abbrev pub failed : Option (Option Error) → Bool
failed none = false
failed (some none) = false
failed (some (some e)) = true

heap-remove_client : (c : ℕ) (r : Registry) → (remove_client c r).heap ≡ r.heap
unfolding remove_client
heap-remove_client c r = elim (Option-cases (lookup c r.connections)) [
  | inl e ↦ rw (e, remove_client)
  | inr (p, e) ↦ rw (e, remove_client)
]

user_of-remove_client :
    (c d : ℕ) (r : Registry)
    → user_of (remove_client c r) d ≡ (if c == d then none else user_of r d)
unfolding remove_client
user_of-remove_client c d r = ground (arith, lookup-erase d c r.connections)

follows-remove_client :
    (c d h : ℕ) (r : Registry)
    → follows (remove_client c r) d h ≡ (if c == d then false else follows r d h)
unfolding remove_client
follows-remove_client c d h r = ground (arith, lookup-erase d c r.connections)

-- The registry once the failed connections of a log are gone.
purge : Dict (Option Error) → Registry → Registry
purge [] s = s
purge ((c, none) ∷ l) s = purge l s
purge ((c, some e) ∷ l) s = purge l (remove_client c s)

purge-Inv : (l : Dict (Option Error)) (s : Registry) → Inv s → Inv (purge l s)
unfolding purge
purge-Inv [] s v = v
purge-Inv ((c, none) ∷ l) s v = purge-Inv l s v
purge-Inv ((c, some e) ∷ l) s v = purge-Inv l (remove_client c s) (remove_client-Inv c s v)

user_of-purge :
    (l : Dict (Option Error)) (s : Registry) (d : ℕ)
    → Distinct l
    → user_of (purge l s) d ≡ (if failed (lookup d l) then none else user_of s d)
unfolding purge lookup
user_of-purge [] s d u = refl
user_of-purge ((c, none) ∷ l) s d u = ground (arith, user_of-purge l s d u.1)
user_of-purge ((c, some e) ∷ l) s d u =
    ground (arith, user_of-purge l (remove_client c s) d u.1, user_of-remove_client c d s)

follows-purge :
    (l : Dict (Option Error)) (s : Registry) (d h : ℕ)
    → Distinct l
    → follows (purge l s) d h ≡ (if failed (lookup d l) then false else follows s d h)
unfolding purge lookup
follows-purge [] s d h u = refl
follows-purge ((c, none) ∷ l) s d h u = ground (arith, follows-purge l s d h u.1)
follows-purge ((c, some e) ∷ l) s d h u =
    ground (arith, follows-purge l (remove_client c s) d h u.1, follows-remove_client c d h s)

module _ {N : Type 0} (send : ℕ → N → Option Error) (n : N) (r : Registry) where
  -- What is sent to the connections of a snapshot.
  log_of : Dict ℕ → Dict (Option Error)
  log_of [] = []
  log_of ((c, p) ∷ l) = (c, send (r.heap p).stream n) ∷ log_of l

  lookup-log_of :
      (c : ℕ) (l : Dict ℕ)
      → lookup c (log_of l)
        ≡ elim (lookup c l) [ none ↦ none | some p ↦ some (send (r.heap p).stream n) ]
  unfolding log_of lookup
  lookup-log_of c [] = refl
  lookup-log_of c ((d, p) ∷ l) = ground (arith, lookup-log_of c l)

  log_of-Distinct : (l : Dict ℕ) → Distinct l → Distinct (log_of l)
  unfolding log_of
  log_of-Distinct [] u = tt
  log_of-Distinct ((c, p) ∷ l) u = (ground (arith, lookup-log_of c l), log_of-Distinct l u.1)

  -- The addresses of the snapshot still hold its clients.
  Labelled : Dict ℕ → Registry → Type 0
  Labelled l s =
      (c p : ℕ)
      → lookup c l ≡ some p
      → ((s.heap p).id ≡ c) × ((s.heap p).stream ≡ (r.heap p).stream)

  deliver-eq :
      (l : Dict ℕ) (s : Registry)
      → Distinct l
      → Labelled l s
      → deliver send n (values l) s ≡ (purge (log_of l) s, log_of l)
  unfolding deliver log_of purge lookup Labelled
  deliver-eq [] s u k = refl
  deliver-eq ((c, p) ∷ l) s u k =
      let (name, stream) = k c p (ground arith) in
      let tail : Labelled l s = λ d q e. k d q (ground arith) in
      let tail' : Labelled l (remove_client c s) =
        λ d q e. rw (heap-remove_client c s) (tail d q e) in
      let sent : send (s.heap p).stream n ≡ send (r.heap p).stream n =
        ap (λ (x : ℕ). send x n) stream in
      elim (Option-cases (send (r.heap p).stream n)) [
        | inl e ↦ rw (sent, e, name, deliver, purge, deliver-eq l s u.1 tail)
        | inr (x, e) ↦
            rw (sent, e, name, deliver, purge, deliver-eq l (remove_client c s) u.1 tail')
      ]

-- The outcome of a delivery to a connection that may not exist.
abbrev pub sent_to {ℓ} :
    {N : Type ℓ} → (ℕ → N → Option Error) → N → Option ℕ → Option (Option Error)
sent_to send n none = none
sent_to send n (some stream) = some (send stream n)

module _ {N : Type 0} (send : ℕ → N → Option Error) (n : N) (g : ℕ) (r s : Registry) (v : Inv r)
    (w : Inv s) (later : Later r s) where
  abbrev snapshot : Dict ℕ
  snapshot = elim (lookup g r.galleries) [ none ↦ [] | some m ↦ entries m ]

  lookup-snapshot :
      (c : ℕ)
      → lookup c snapshot ≡ (elim (lookup c r.connections) [
        | none ↦ none
        | some p ↦ if has g (r.heap p).galleries then some p else none
      ])
  unfolding lookup₂ lookup
  lookup-snapshot c =
      ground (arith, v.by_gallery g c, lookup-entries c (Nested.inner g r.galleries))

  snapshot-Distinct : Distinct snapshot
  snapshot-Distinct = ground (arith, entries-Distinct (Nested.inner g r.galleries))

  snapshot-Labelled : Labelled send n r snapshot s
  unfolding Labelled
  snapshot-Labelled c p e =
      ground (
        arith,
        lookup-snapshot c,
        v.named c p,
        v.allocated c p,
        later.same_id p,
        later.same_stream p,
      )

  targets-snapshot : targets g r ≡ values snapshot
  unfolding targets
  targets-snapshot = ground arith

  delivered :
      deliver send n (targets g r) s
      ≡ (purge (log_of send n r snapshot) s, log_of send n r snapshot)
  delivered =
      rw targets-snapshot (deliver-eq send n r snapshot s snapshot-Distinct snapshot-Labelled)

  log : Dict (Option Error)
  log = log_of send n r snapshot

  log-Distinct : Distinct log
  unfolding log
  log-Distinct = log_of-Distinct send n r snapshot snapshot-Distinct

  lookup-log :
      (c : ℕ) → lookup c log ≡ (if follows r c g then sent_to send n (stream_of r c) else none)
  unfolding log
  lookup-log c = ground (arith, lookup-log_of send n r c snapshot, lookup-snapshot c)

-- What a delivery did: `before` is the registry at the snapshot, `now` the one when the sends began.
pub record Delivered {N : Type 0} (send : ℕ → N → Option Error) (n : N) (g : ℕ)
    (before now : Registry) (result : Registry × Dict (Option Error)) : Type 0 where
  -- One send to each connection that followed the gallery, and to no other.
  pub once : Distinct result.1
  pub exactly :
      (c : ℕ)
      → lookup c result.1
        ≡ (if follows before c g then sent_to send n (stream_of before c) else none)
  -- Exactly the connections to which a send failed are gone.
  pub inv : Inv result.0
  pub users :
      (d : ℕ) → user_of result.0 d ≡ (if failed (lookup d result.1) then none else user_of now d)
  pub galleries :
      (d h : ℕ)
      → follows result.0 d h ≡ (if failed (lookup d result.1) then false else follows now d h)

pub deliver-Delivered :
    {N : Type 0} (send : ℕ → N → Option Error) (n : N) (g : ℕ) (r s : Registry)
    → Inv r
    → Inv s
    → Later r s
    → Delivered send n g r s (deliver send n (targets g r) s)
unfolding log
deliver-Delivered send n g r s v w later = rw (delivered send n g r s v w later) record {
  once = log-Distinct send n g r s v w later;
  exactly = lookup-log send n g r s v w later;
  inv = purge-Inv (log send n g r s v w later) s w;
  users = λ d. user_of-purge (log send n g r s v w later) s d (log-Distinct send n g r s v w later);
  galleries =
      λ d h. follows-purge (log send n g r s v w later) s d h (log-Distinct send n g r s v w later);
}
