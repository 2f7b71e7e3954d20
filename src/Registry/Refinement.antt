-- ===== src/Registry/Refinement.antt =====
-- The registry against its specification: who is connected, and which galleries each follows.
use progetto_sdcc.Prelude.{
  ℕ, ◌≡◌, refl, Bool, true, false, Option, none, some, List, [], ◌∷◌, arith, ◌==◌, if◌then◌else◌,
  Option-cases, inl, inr, Bool-cases, ◌&&◌, ◌∙◌, ap,
}
use progetto_sdcc.Prelude.Dict.{
  Dict, lookup, has, entries, lookup-insert, lookup-erase, lookup-entries, entries-Distinct,
}
use progetto_sdcc.Registry.Nested.{ensure, lookup₂}
use progetto_sdcc.Registry.{
  Registry, new, create_client, subscribe, add_gallery_for_client, unsubscribe, remove_client,
}
use progetto_sdcc.Registry.Wellformed.{
  Inv, new-Inv, create_client-Inv, ensure-Inv, link-Inv, remove_client-Inv,
}
use progetto_sdcc.Registry.Effects.{
  user_of, follows, follows-link, user_of-link, Known, link_all-Looped, unlink_all-Looped,
}

pub record View : Type 0 where
  pub user : ℕ → Option ℕ
  pub follows : ℕ → ℕ → Bool

abbrev pub view : Registry → View
view r = record { user = user_of r; follows = follows r }

-- Whether a connection's user is the given one.
abbrev pub is_of : ℕ → Option ℕ → Bool
is_of u none = false
is_of u (some w) = w == u

abbrev pub is_live : Option ℕ → Bool
is_live none = false
is_live (some w) = true

-- The calls that change a registry.
pub data Op : Type 0 where
  creates : (connection user stream : ℕ) → Op
  subscribes : (connection gallery : ℕ) → Op
  joins : (gallery user : ℕ) → Op
  leaves : (gallery user : ℕ) → Op
  removes : (connection : ℕ) → Op

unfoldable pub apply : Op → Registry → Registry
apply (creates c u s) r = create_client c u s r
apply (subscribes c g) r = subscribe c g r
apply (joins g u) r = add_gallery_for_client g u r
apply (leaves g u) r = unsubscribe g u r
apply (removes c) r = remove_client c r

abbrev pub spec : Op → View → View
spec (creates c u s) v = record {
  user = λ d. if c == d then some u else v.user d;
  follows = λ d h. if c == d then false else v.follows d h;
}
spec (subscribes c g) v = record v {
  follows = λ d h. if c == d && (g == h && is_live (v.user d)) then true else v.follows d h;
}
spec (joins g u) v = record v {
  follows = λ d h. if is_of u (v.user d) && g == h then true else v.follows d h;
}
spec (leaves g u) v = record v {
  follows = λ d h. if is_of u (v.user d) && g == h then false else v.follows d h;
}
spec (removes c) v = record {
  user = λ d. if c == d then none else v.user d;
  follows = λ d h. if c == d then false else v.follows d h;
}

-- `uuid.New` gives an identifier that no live connection has.
abbrev pub Fresh : Op → View → Type 0
Fresh (creates c u s) v = v.user c ≡ none
Fresh _ v = Unit

abbrev pub Refines : Op → Registry → Registry → Type 0
Refines op r s = Inv s × (view s ≡ spec op (view r))

View-path :
    (v w : View)
    → ((d : ℕ) → v.user d ≡ w.user d)
    → ((d h : ℕ) → v.follows d h ≡ w.follows d h)
    → v ≡ w
View-path v w p q = λ i. record { user = λ d. p d i; follows = λ d h. q d h i }

create_client-Refines :
    (c u s : ℕ) (r : Registry)
    → user_of r c ≡ none
    → Inv r
    → Refines (creates c u s) r (create_client c u s r)
unfolding create_client lookup
create_client-Refines c u s r fresh v =
    (create_client-Inv c u s r (ground arith) v, View-path _ _ users galleries)
  where
    users : (d : ℕ) → user_of (create_client c u s r) d ≡ (if c == d then some u else user_of r d)
    users d = elim (Option-cases (lookup d r.connections)) [
      | inl e ↦ ground (arith, lookup-insert d c r.next r.connections)
      | inr (p, e) ↦ ground (arith, lookup-insert d c r.next r.connections, v.allocated d p)
    ]

    galleries :
        (d h : ℕ) → follows (create_client c u s r) d h ≡ (if c == d then false else follows r d h)
    galleries d h = elim (Option-cases (lookup d r.connections)) [
      | inl e ↦ ground (arith, lookup-insert d c r.next r.connections)
      | inr (p, e) ↦ ground (arith, lookup-insert d c r.next r.connections, v.allocated d p)
    ]

-- The connections of a user, as the loops of the two methods find them.
module _ (u : ℕ) (m : Dict ℕ) (r : Registry) (at : lookup u r.clients ≡ some m) (v : Inv r) where
  entries-Known : Known (entries m) r
  unfolding lookup₂
  entries-Known c p e = ground (arith, v.by_user u c, lookup-entries c m)

  has-entries : (d : ℕ) → has d (entries m) ≡ is_of u (user_of r d)
  unfolding lookup₂
  has-entries d = ground (arith, v.by_user u d, lookup-entries d m)

unknown_user :
    (u : ℕ) (r : Registry)
    → lookup u r.clients ≡ none
    → Inv r
    → (d : ℕ) → is_of u (user_of r d) ≡ false
unfolding lookup₂ lookup
unknown_user u r e v d = ground (arith, v.by_user u d)

add_gallery-Refines :
    (g u : ℕ) (r : Registry) → Inv r → Refines (joins g u) r (add_gallery_for_client g u r)
unfolding add_gallery_for_client
add_gallery-Refines g u r v = elim (Option-cases (lookup u r.clients)) [
  | inl e ↦
      rw (e, add_gallery_for_client)
        (v, View-path _ _ (λ d. refl) (λ d h. ground (arith, unknown_user u r e v d)))
  | inr (m, e) ↦
      let r' : Registry = record r { galleries = ensure g r.galleries } in
      let l =
        link_all-Looped g (entries m) r' (entries-Distinct m) (entries-Known u m r e v)
          (ensure-Inv g r v) in
      rw (e, add_gallery_for_client)
        (
          l.inv,
          View-path _ _ l.users (λ d h. ground (arith, l.galleries d h, has-entries u m r e v d)),
        )
]

unsubscribe-Refines : (g u : ℕ) (r : Registry) → Inv r → Refines (leaves g u) r (unsubscribe g u r)
unfolding unsubscribe
unsubscribe-Refines g u r v = elim (Option-cases (lookup u r.clients)) [
  | inl e ↦
      rw (e, unsubscribe)
        (v, View-path _ _ (λ d. refl) (λ d h. ground (arith, unknown_user u r e v d)))
  | inr (m, e) ↦
      let l = unlink_all-Looped g (entries m) r (entries-Distinct m) (entries-Known u m r e v) v in
      rw (e, unsubscribe)
        (
          l.inv,
          View-path _ _ l.users (λ d h. ground (arith, l.galleries d h, has-entries u m r e v d)),
        )
]

subscribe-Refines : (c g : ℕ) (r : Registry) → Inv r → Refines (subscribes c g) r (subscribe c g r)
unfolding subscribe
subscribe-Refines c g r v = elim (Option-cases (lookup c r.connections)) [
  | inl e ↦ rw (e, subscribe) (v, View-path _ _ (λ d. refl) (λ d h. ground arith))
  | inr (p, e) ↦ elim (Bool-cases (has g (r.heap p).galleries)) [
    | inl old ↦ rw (e, old, subscribe) (v, View-path _ _ (λ d. refl) (λ d h. ground arith))
    | inr new ↦
        let r' : Registry = record r { galleries = ensure g r.galleries } in
        let v' : Inv r' = ensure-Inv g r v in
        rw (e, new, subscribe)
          (
            link-Inv g c p r' e v',
            View-path _ _ (λ d. user_of-link g c p d r')
                (λ d h. ground (arith, follows-link g c p r' e v' d h)),
          )
  ]
]

remove_client-Refines : (c : ℕ) (r : Registry) → Inv r → Refines (removes c) r (remove_client c r)
unfolding remove_client
remove_client-Refines c r v = (remove_client-Inv c r v, View-path _ _ users galleries)
  where
    users : (d : ℕ) → user_of (remove_client c r) d ≡ (if c == d then none else user_of r d)
    users d = ground (arith, lookup-erase d c r.connections)

    galleries :
        (d h : ℕ) → follows (remove_client c r) d h ≡ (if c == d then false else follows r d h)
    galleries d h = ground (arith, lookup-erase d c r.connections)

-- Each method of a well-formed registry keeps it well-formed and does to the connections' users and
-- galleries what its specification says, given that a new connection's identifier is not in use.
pub apply-Refines : (op : Op) (r : Registry) → Fresh op (view r) → Inv r → Refines op r (apply op r)
unfolding apply
apply-Refines (creates c u s) r f v = create_client-Refines c u s r f v
apply-Refines (subscribes c g) r f v = subscribe-Refines c g r v
apply-Refines (joins g u) r f v = add_gallery-Refines g u r v
apply-Refines (leaves g u) r f v = unsubscribe-Refines g u r v
apply-Refines (removes c) r f v = remove_client-Refines c r v

abbrev pub run : List Op → Registry → Registry
run [] r = r
run (op ∷ ops) r = run ops (apply op r)

abbrev pub spec_run : List Op → View → View
spec_run [] v = v
spec_run (op ∷ ops) v = spec_run ops (spec op v)

abbrev pub AllFresh : List Op → View → Type 0
AllFresh [] v = Unit
AllFresh (op ∷ ops) v = Fresh op v × AllFresh ops (spec op v)

abbrev pub nobody : View
nobody = record { user = λ _. none; follows = λ _ _. false }

pub run-Refines :
    (ops : List Op) (r : Registry)
    → AllFresh ops (view r)
    → Inv r
    → Inv (run ops r) × (view (run ops r) ≡ spec_run ops (view r))
run-Refines [] r f v = (v, refl)
run-Refines (op ∷ ops) r (f, fs) v =
    let step = apply-Refines op r f v in
    let rest = run-Refines ops (apply op r) (rw step.1 fs) step.0 in
    (rest.0, rest.1 ∙ ap (spec_run ops) step.1)

-- After any sequence of method calls on a new registry, in which each new connection gets an
-- identifier not in use, the registry is well-formed, and exactly the connections, users and
-- galleries of the specification are in it.
pub run-new :
    (ops : List Op)
    → AllFresh ops nobody
    → Inv (run ops new) × (view (run ops new) ≡ spec_run ops nobody)
unfolding new lookup
run-new ops f = run-Refines ops new f new-Inv
