-- ===== src/Subscription/Memberships.antt =====
-- The subscription's loop over the pages of the gallery service, down to the rows of its repository.
use mathlib.Core.List.{map-append}
use text.Mathlib.Text.{◌==◌ as str_eq}
use text.Mathlib.TextEquality.{eq_iff}
use progetto_sdcc.Prelude.{
  ℕ, zero, suc, ◌+◌, ◌≤◌, ◌<◌, ◌≡◌, ◌≢◌, refl, sym, ap, ◌∙◌, String, true, false, some, List, [],
  ◌∷◌, ◌++◌, map, arith, ok, is_empty, ltb, if◌then◌else◌, length, take, drop, length-drop,
  take-append-drop, Bool-cases, inl, inr,
}
use progetto_sdcc.Prelude.Int.{pos}
use progetto_sdcc.Gallery.{Gallery}
use progetto_sdcc.Gallery.Query as Query
use progetto_sdcc.Gallery.Query.{Uuids, QueryRepository, last_id, next_page_token, after_of}
use progetto_sdcc.Gallery.Api.{ProtoGallery, to_proto_gallery, list_galleries_by_member}
use progetto_sdcc.Subscription.{MemberClient, ids_of, resolve_memberships}

-- What the UUID library promises: an identifier survives being written and read.
pub record WritesUuids (uuids : Uuids) : Type 0 where
  pub parse-text : (n : ℕ) → uuids.parse (uuids.text n) ≡ some n
  pub not_empty : (n : ℕ) → is_empty (uuids.text n) ≡ false

-- Sorted by identifiers above `a`.
abbrev pub Ascending : ℕ → List Gallery → Type 0
Ascending a [] = Unit
Ascending a (g ∷ gs) = (a < g.id) × Ascending g.id gs

-- Those with an identifier above `a`.
abbrev pub above : ℕ → List Gallery → List Gallery
above a [] = []
above a (g ∷ gs) = let rest = above a gs in if ltb a g.id then g ∷ rest else rest

-- What the repository promises: the galleries of a user have positive identifiers, and a page has
-- those above an identifier, in ascending order, up to a positive limit.
pub record ByMember (repo : QueryRepository) (rows : ℕ → List Gallery) : Type 0 where
  pub ascending : (user : ℕ) → Ascending 0 (rows user)
  pub pages :
      (user limit after : ℕ)
      → 0 < limit
      → repo.list_galleries_by_member user (pos limit) after
        ≡ ok (take limit (above after (rows user)))

pub above-Ascending : (a c : ℕ) (gs : List Gallery) → Ascending c gs → a ≤ c → above a gs ≡ gs
above-Ascending a c [] s h = refl
above-Ascending a c (g ∷ gs) s h =
    ground (arith, above-Ascending a g.id gs s.1 (omega (arith, s.0)))

Ascending-above : (a c : ℕ) (gs : List Gallery) → Ascending c gs → Ascending a (above a gs)
Ascending-above a c [] s = tt
Ascending-above a c (g ∷ gs) s = elim (Bool-cases (ltb a g.id)) [
  | inl e ↦ rw (e, above-Ascending a g.id gs s.1 (ground arith)) (ground arith, s.1)
  | inr e ↦ rw e (Ascending-above a g.id gs s.1)
]

above-above : (a b : ℕ) (gs : List Gallery) → a ≤ b → above b (above a gs) ≡ above b gs
above-above a b [] h = refl
above-above a b (g ∷ gs) h = ground (arith, above-above a b gs h)

le-last_id : (n c : ℕ) (gs : List Gallery) → Ascending c gs → c ≤ last_id c (take n gs)
le-last_id zero c gs s = omega arith
le-last_id (suc n) c [] s = omega arith
le-last_id (suc n) c (g ∷ gs) s = omega (arith, s.0, le-last_id n g.id gs s.1)

-- What lies above the last row of a page is what was behind the page.
above-last_id :
    (n c : ℕ) (gs : List Gallery) → Ascending c gs → above (last_id c (take n gs)) gs ≡ drop n gs
above-last_id zero c gs s = above-Ascending c c gs s (omega arith)
above-last_id (suc n) c [] s = refl
above-last_id (suc n) c (g ∷ gs) s =
    let below = le-last_id n g.id gs s.1 in ground (arith, above-last_id n g.id gs s.1)

abbrev pub ids : List Gallery → List ℕ
ids = map (λ g. g.id)

page_and_rest : (gs : List Gallery) → ids (take 99 gs) ++ ids (drop 99 gs) ≡ ids gs
page_and_rest gs =
    sym (map-append (λ (g : Gallery). g.id) (take 99 gs) (drop 99 gs))
    ∙ ap ids (take-append-drop 99 gs)

module _ (uuids : Uuids) (writes : WritesUuids uuids) where
  ids_of-map : (gs : List Gallery) → ids_of uuids (map (to_proto_gallery uuids) gs) ≡ ok (ids gs)
  unfolding ids_of
  ids_of-map [] = refl
  ids_of-map (g ∷ gs) = ground (arith, ids_of-map gs, writes.parse-text g.id)

  text_apart : (a b : ℕ) → a < b → str_eq (uuids.text b) (uuids.text a) ≡ false
  text_apart a b h = elim (Bool-cases (str_eq (uuids.text b) (uuids.text a))) [
    | inr e ↦ e
    | inl e ↦
        let same : uuids.parse (uuids.text b) ≡ uuids.parse (uuids.text a) =
          ap uuids.parse ((eq_iff (uuids.text b) (uuids.text a)).0 e) in
        absurd (ground (arith, writes.parse-text a, writes.parse-text b))
  ]

  text_not_empty : (b : ℕ) → str_eq (uuids.text b) "" ≡ false
  text_not_empty b = elim (Bool-cases (str_eq (uuids.text b) "")) [
    | inr e ↦ e
    | inl e ↦
        let same : is_empty (uuids.text b) ≡ true = ap is_empty ((eq_iff (uuids.text b) "").0 e) in
        absurd (ground (arith, writes.not_empty b))
  ]

  memberships_last :
      (client : MemberClient) (fuel user : ℕ) (token next : String) (gs : List ProtoGallery)
      (l : List ℕ)
      → client (uuids.text user) (pos 100) token ≡ ok (gs, next)
      → ids_of uuids gs ≡ ok l
      → is_empty next ≡ true
      → resolve_memberships uuids client (suc fuel) user token ≡ ok l
  unfolding resolve_memberships
  memberships_last client fuel user token next gs l page read last = ground arith

  memberships_more :
      (client : MemberClient) (fuel user : ℕ) (token next : String) (gs : List ProtoGallery)
      (l others : List ℕ)
      → client (uuids.text user) (pos 100) token ≡ ok (gs, next)
      → ids_of uuids gs ≡ ok l
      → is_empty next ≡ false
      → str_eq next token ≡ false
      → resolve_memberships uuids client fuel user next ≡ ok others
      → resolve_memberships uuids client (suc fuel) user token ≡ ok (l ++ others)
  unfolding resolve_memberships
  memberships_more client fuel user token next gs l others page read more new behind =
      rw (page, read, more, new, behind) refl

  module _ (repo : QueryRepository) (rows : ℕ → List Gallery) (members : ByMember repo rows)
      (user : ℕ) (given : user ≢ 0) where
    -- One page of the gallery service.
    one_page :
        (token : String) (a : ℕ)
        → after_of uuids repo token ≡ ok a
        → list_galleries_by_member uuids repo (uuids.text user) (pos 100) token
          ≡ ok (
            map (to_proto_gallery uuids) (take 100 (above a (rows user))),
            next_page_token uuids repo (take 100 (above a (rows user))),
          )
    unfolding list_galleries_by_member Query.list_galleries_by_member
    one_page token a e =
        ground (arith, writes.parse-text user, members.pages user 100 a (omega arith))

    abbrev client : MemberClient
    client = list_galleries_by_member uuids repo

    -- The loop from a page token on that stands for the identifier `a`.
    resolve-from :
        (fuel a : ℕ) (token : String) (rest : List Gallery)
        → after_of uuids repo token ≡ ok a
        → ((b : ℕ) → a < b → str_eq (uuids.text b) token ≡ false)
        → above a (rows user) ≡ rest
        → Ascending a rest
        → length rest < fuel
        → resolve_memberships uuids client fuel user token ≡ ok (ids rest)
    resolve-from zero a token rest start new split up h = absurd (omega arith)
    resolve-from (suc fuel) a token [] start new split up h =
        memberships_last client fuel user token "" [] [] (rw split at (one_page token a start))
          (ids_of-map []) refl
    resolve-from (suc fuel) a token (x ∷ xs) start new split up h =
        let b = last_id x.id (take 99 xs) in
        let reached : x.id ≤ b = le-last_id 99 x.id xs up.1 in
        let later : a < b = omega (arith, up.0, reached) in
        let skip : above b (x ∷ xs) ≡ above b xs = ground arith in
        let behind : above b (rows user) ≡ drop 99 xs =
          sym (above-above a b (rows user) (omega (arith, later)))
          ∙ ap (above b) split
          ∙ skip
          ∙ above-last_id 99 x.id xs up.1 in
        let sorted : Ascending b (drop 99 xs) =
          rw behind at (Ascending-above b 0 (rows user) (members.ascending user)) in
        let others =
          resolve-from fuel b (uuids.text b) (drop 99 xs)
            (ground (arith, writes.parse-text b, writes.not_empty b)) (text_apart b) behind sorted
            (omega (arith, length-drop 99 xs)) in
        memberships_more client fuel user token (uuids.text b)
          (map (to_proto_gallery uuids) (x ∷ take 99 xs)) (ids (x ∷ take 99 xs)) (ids (drop 99 xs))
          (rw split at (one_page token a start)) (ids_of-map (x ∷ take 99 xs)) (writes.not_empty b)
          (new b later) others
        ∙ ap (λ (l : List ℕ). ok (x.id ∷ l)) (page_and_rest xs)

    -- If the repository of the gallery service returns pages of a user's galleries by ascending
    -- identifiers, then the loop of a subscription, run against the server of the gallery service,
    -- ends within one call more than there are galleries, and has found the identifiers of all
    -- galleries of the user, each once.
    pub resolve_memberships-all :
        resolve_memberships uuids client (length (rows user) + 1) user ""
        ≡ ok (map (λ (g : Gallery). g.id) (rows user))
    resolve_memberships-all =
        resolve-from (length (rows user) + 1) 0 "" (rows user) refl (λ b h. text_not_empty b)
          (above-Ascending 0 0 (rows user) (members.ascending user) (omega arith))
          (members.ascending user) (omega arith)
