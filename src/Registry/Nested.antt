-- ===== src/Registry/Nested.antt =====
-- Maps of maps, `map[uuid.UUID]map[uuid.UUID]*Client`, as registry.go reads and writes them: an
-- inner map is made before its first entry and deleted after its last one.
use progetto_sdcc.Prelude.{ℕ, ◌≡◌, ◌≢◌, ◌&&◌, Option, none, some, [], arith, ◌==◌, if◌then◌else◌}
use progetto_sdcc.Prelude.Dict.{
  Dict, lookup, insert, erase, is_nil, insert-ne-nil, lookup-insert, lookup-erase, lookup-is_nil,
}

-- Pointers to clients are addresses.
abbrev pub Index : Type 0
Index = Dict (Dict ℕ)

-- A missing inner map reads as an empty one.
abbrev pub inner : ℕ → Index → Dict ℕ
inner k d = elim (lookup k d) [ none ↦ [] | some m ↦ m ]

-- `d[k][c]`
unfoldable pub lookup₂ : ℕ → ℕ → Index → Option ℕ
lookup₂ k c d = lookup c (inner k d)

-- `if _, ok := d[k]; !ok { d[k] = make(...) }`
unfoldable pub ensure : ℕ → Index → Index
ensure k d = elim (lookup k d) [ none ↦ insert k [] d | some m ↦ d ]

-- `d[k][c] = p`, where `d[k]` has been made.
unfoldable pub put : ℕ → ℕ → ℕ → Index → Index
put k c p d = insert k (insert c p (inner k d)) d

-- `if m, ok := d[k]; ok { delete(m, c); if len(m) == 0 { delete(d, k) } }`
unfoldable pub drop_entry : ℕ → ℕ → Index → Index
drop_entry k c d = elim (lookup k d) [
  | none ↦ d
  | some m ↦ if is_nil (erase c m) then erase k d else insert k (erase c m) d
]

pub lookup₂-ensure : (j b k : ℕ) (d : Index) → lookup₂ j b (ensure k d) ≡ lookup₂ j b d
unfolding lookup₂ ensure lookup
lookup₂-ensure j b k d = ground (arith, lookup-insert j k [] d)

pub lookup₂-put :
    (j b k c p : ℕ) (d : Index)
    → lookup₂ j b (put k c p d) ≡ (if k == j && c == b then some p else lookup₂ j b d)
unfolding lookup₂ put
lookup₂-put j b k c p d =
    ground (arith, lookup-insert j k (insert c p (inner k d)) d, lookup-insert b c p (inner k d))

pub lookup₂-drop_entry :
    (j b k c : ℕ) (d : Index)
    → lookup₂ j b (drop_entry k c d) ≡ (if k == j && c == b then none else lookup₂ j b d)
unfolding lookup₂ drop_entry lookup
lookup₂-drop_entry j b k c d = ground (
  arith,
  lookup-insert j k (erase c (inner k d)) d,
  lookup-erase j k d,
  lookup-erase b c (inner k d),
  lookup-is_nil b (erase c (inner k d)),
)

-- No inner map is kept once it is empty.
abbrev pub NoEmpty : Index → Type 0
NoEmpty d = (k : ℕ) → lookup k d ≢ some []

-- The same, but for one key.
abbrev pub NoEmptyBut : ℕ → Index → Type 0
NoEmptyBut g d = (k : ℕ) → k ≢ g → lookup k d ≢ some []

pub put-NoEmpty : (k c p : ℕ) (d : Index) → NoEmptyBut k d → NoEmpty (put k c p d)
unfolding put
put-NoEmpty k c p d h j =
    ground (arith, h j, lookup-insert j k (insert c p (inner k d)) d, insert-ne-nil c p (inner k d))

pub ensure-NoEmptyBut : (k : ℕ) (d : Index) → NoEmpty d → NoEmptyBut k (ensure k d)
unfolding ensure
ensure-NoEmptyBut k d h j ne = ground (arith, h j, lookup-insert j k [] d)

pub drop_entry-NoEmpty : (k c : ℕ) (d : Index) → NoEmpty d → NoEmpty (drop_entry k c d)
unfolding drop_entry
drop_entry-NoEmpty k c d h j =
    ground (arith, h j, lookup-insert j k (erase c (inner k d)) d, lookup-erase j k d)
