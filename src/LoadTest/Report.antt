-- ===== src/LoadTest/Report.antt =====
-- report of cmd/testgallery/main.go, which cmd/testupload/main.go has but for its title: the
-- statistics of each operation, in the order of their names.
pub mod Counted
use Prim.Native.Char.{code}
use text.Mathlib.Text.{◌==◌ as str_eq}
use progetto_sdcc.Prelude.{
  String, Bool, true, false, List, [], ◌∷◌, ◌++◌, ltb, ◌==◌, map, if◌then◌else◌,
}
use progetto_sdcc.LoadTest.{OpResult}
use progetto_sdcc.LoadTest.Statistics.{Index, OpStats, compute_stats}

-- `grouped`, whose keys are the names of operations.
abbrev pub Groups : Type 0
Groups = List (String × List OpResult)

-- `grouped[op]`
abbrev pub group_of : String → Groups → List OpResult
group_of op [] = []
group_of op ((name, rs) ∷ gs) = let others = group_of op gs in if str_eq name op then rs else others

-- `grouped[r.op] = append(grouped[r.op], r)`
unfoldable pub add_result : OpResult → Groups → Groups
add_result r [] = (r.op, r ∷ []) ∷ []
add_result r ((name, rs) ∷ gs) =
    let rest = add_result r gs in
    if str_eq name r.op then (name, rs ++ r ∷ []) ∷ gs else (name, rs) ∷ rest

unfoldable pub group_results : List OpResult → Groups → Groups
group_results [] gs = gs
group_results (r ∷ rs) gs = group_results rs (add_result r gs)

-- Go's order of strings.
abbrev pub name_leb : String → String → Bool
name_leb String.[] t = true
name_leb (String.◌∷◌ c s) String.[] = false
name_leb (String.◌∷◌ c s) (String.◌∷◌ d t) =
    let rest = name_leb s t in if code c == code d then rest else ltb (code c) (code d)

-- `sort.Strings`
unfoldable pub insert_name : String → List String → List String
insert_name x [] = x ∷ []
insert_name x (y ∷ ys) =
    let rest = insert_name x ys in if name_leb x y then x ∷ y ∷ ys else y ∷ rest

unfoldable pub sort_names : List String → List String
sort_names [] = []
sort_names (x ∷ xs) = insert_name x (sort_names xs)

abbrev pub names_of : Groups → List String
names_of [] = []
names_of ((name, rs) ∷ gs) = name ∷ names_of gs

unfoldable pub report : Index → List OpResult → List OpStats
report index all =
    let grouped = group_results all [] in
    map (λ op. compute_stats index op (group_of op grouped)) (sort_names (names_of grouped))
