-- ===== src/Upload/Repository/Contents.antt =====
-- The repository against the list of the records saved in it.
use mathlib.Core.List.{reverse-append}
use progetto_sdcc.Prelude.{
  ℕ, zero, suc, ◌+◌, ◌≡◌, refl, sym, ap, ◌∙◌, Bool, true, false, some, List, [], ◌∷◌, ◌++◌, map,
  reverse, arith, ◌==◌, if◌then◌else◌, length, length-map, take, drop, page, drop-take, take_of_le,
  drop_of_le, map-take, length-drop, length-reverse, take-nil, map-drop, Bool-cases, inl, inr,
}
use progetto_sdcc.Prelude.Dict.{lookup, has, lookup-insert}
use progetto_sdcc.Upload.Record.{Record}
use progetto_sdcc.Upload.Repository.{
  InMemoryRepository, empty, index_of, save, collect, list_by_gallery, page_start, page_end,
}

-- The repository after these records were saved, the newest first.
abbrev pub repository_of : List Record → InMemoryRepository
repository_of [] = empty
repository_of (x ∷ xs) = save x (repository_of xs)

abbrev pub has_photo : ℕ → List Record → Bool
has_photo p [] = false
has_photo p (x ∷ xs) = if x.photo_id == p then true else has_photo p xs

-- Each record is of another photo.
abbrev pub AllNew : List Record → Type 0
AllNew [] = Unit
AllNew (x ∷ xs) = (has_photo x.photo_id xs ≡ false) × AllNew xs

-- The records of a gallery.
abbrev pub of_gallery : ℕ → List Record → List Record
of_gallery g [] = []
of_gallery g (x ∷ xs) = let rest = of_gallery g xs in if x.gallery_id == g then x ∷ rest else rest

abbrev photo : Record → ℕ
photo x = x.photo_id

-- Each record of the list is what the repository holds for its photo.
abbrev Held : InMemoryRepository → List Record → Type 0
Held r [] = Unit
Held r (x ∷ xs) = (lookup x.photo_id r.records ≡ some x) × Held r xs

has-records : (p : ℕ) (xs : List Record) → has p (repository_of xs).records ≡ has_photo p xs
unfolding empty save lookup
has-records p [] = refl
has-records p (x ∷ xs) =
    ground (arith, has-records p xs, lookup-insert p x.photo_id x (repository_of xs).records)

Held-save :
    (y : Record) (xs ys : List Record)
    → has_photo y.photo_id xs ≡ false
    → Held (repository_of xs) ys
    → Held (save y (repository_of xs)) ys
unfolding save
Held-save y xs [] new h = tt
Held-save y xs (x ∷ ys) new h = (
  ground (
    arith,
    has-records y.photo_id xs,
    lookup-insert x.photo_id y.photo_id y (repository_of xs).records,
  ),
  Held-save y xs ys new h.1,
)

Held-of_gallery : (g : ℕ) (xs : List Record) → AllNew xs → Held (repository_of xs) (of_gallery g xs)
unfolding save
Held-of_gallery g [] u = tt
Held-of_gallery g (x ∷ xs) u =
    let rest = Held-save x xs (of_gallery g xs) u.0 (Held-of_gallery g xs u.1) in
    ground (arith, rest, lookup-insert x.photo_id x.photo_id x (repository_of xs).records)

reverse-snoc : (xs : List ℕ) (y : ℕ) → reverse (xs ++ y ∷ []) ≡ y ∷ reverse xs
reverse-snoc xs y = reverse-append xs (y ∷ [])

index-of_gallery :
    (g : ℕ) (xs : List Record)
    → AllNew xs
    → reverse (index_of g (repository_of xs)) ≡ map photo (of_gallery g xs)
unfolding empty save lookup
index-of_gallery g [] u = refl
index-of_gallery g (x ∷ xs) u = ground (
  arith,
  index-of_gallery g xs u.1,
  has-records x.photo_id xs,
  lookup-insert g x.gallery_id (index_of x.gallery_id (repository_of xs) ++ x.photo_id ∷ [])
      (repository_of xs).gallery_index,
  reverse-snoc (index_of x.gallery_id (repository_of xs)) x.photo_id,
)

Held-drop : (r : InMemoryRepository) (k : ℕ) (xs : List Record) → Held r xs → Held r (drop k xs)
Held-drop r zero xs h = h
Held-drop r (suc k) [] h = h
Held-drop r (suc k) (x ∷ xs) h = Held-drop r k xs h.1

Held-take : (r : InMemoryRepository) (k : ℕ) (xs : List Record) → Held r xs → Held r (take k xs)
Held-take r zero xs h = tt
Held-take r (suc k) [] h = h
Held-take r (suc k) (x ∷ xs) h = (h.0, Held-take r k xs h.1)

collect-Held :
    (r : InMemoryRepository) (xs : List Record) → Held r xs → collect r (map photo xs) ≡ xs
unfolding collect
collect-Held r [] h = refl
collect-Held r (x ∷ xs) h = ground (arith, collect-Held r xs h.1)

-- The corrected bounds cut out the page.
page-bounds :
    {A : Type 0} (offset limit : ℕ) (xs : List A)
    → let start = page_start offset (length xs) in
      drop start (take (page_end start limit (length xs)) xs) ≡ page offset limit xs
page-bounds {A} offset limit xs = ground (
  arith,
  drop-take offset limit xs,
  drop_of_le offset xs,
  drop_of_le (length xs) (take (length xs) xs),
  drop_of_le (length xs) (take (length xs + limit) xs),
  take_of_le (length xs) xs,
  take_of_le (length xs + limit) xs,
  take_of_le limit (drop offset xs),
  length-drop offset xs,
  take-nil {A = A} limit,
)

map-page :
    (offset limit : ℕ) (xs : List Record)
    → page offset limit (map photo xs) ≡ map photo (page offset limit xs)
map-page offset limit xs =
    ground (arith, map-drop photo offset xs, map-take photo limit (drop offset xs))

Held-page :
    (r : InMemoryRepository) (offset limit : ℕ) (xs : List Record)
    → Held r xs
    → Held r (page offset limit xs)
Held-page r offset limit xs h = elim (Bool-cases (limit == 0)) [
  | inl e ↦ rw e (Held-drop r offset xs h)
  | inr e ↦ rw e (Held-take r limit (drop offset xs) (Held-drop r offset xs h))
]

length-index :
    (g : ℕ) (xs : List Record)
    → AllNew xs
    → length (index_of g (repository_of xs)) ≡ length (of_gallery g xs)
length-index g xs u =
    sym (length-reverse (index_of g (repository_of xs)))
    ∙ ap length (index-of_gallery g xs u)
    ∙ length-map photo (of_gallery g xs)

-- After records of different photos were saved, a listing of a gallery returns the page at its
-- offset, of at most `limit` records and of all for limit 0, of the records of that gallery, the one
-- saved last first, and their number.
pub list_by_gallery-page :
    (xs : List Record) (g offset limit : ℕ)
    → AllNew xs
    → list_by_gallery g offset limit (repository_of xs)
      ≡ (page offset limit (of_gallery g xs), length (of_gallery g xs))
unfolding list_by_gallery
list_by_gallery-page xs g offset limit u =
    let r = repository_of xs in
    let ids = reverse (index_of g r) in
    let total : length (index_of g r) ≡ length ids = sym (length-reverse (index_of g r)) in
    let cut : drop (page_start offset (length ids))
          (take (page_end (page_start offset (length ids)) limit (length ids)) ids)
        ≡ map photo (page offset limit (of_gallery g xs)) =
      page-bounds offset limit ids
      ∙ ap (page offset limit) (index-of_gallery g xs u)
      ∙ map-page offset limit (of_gallery g xs) in
    let held =
      collect-Held r (page offset limit (of_gallery g xs))
        (Held-page r offset limit (of_gallery g xs) (Held-of_gallery g xs u)) in
    rw (total, cut, held)
      (ap (λ (n : ℕ). (page offset limit (of_gallery g xs), n)) (sym total ∙ length-index g xs u))
