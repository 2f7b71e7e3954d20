-- ===== src/Gallery/Tests.antt =====
-- A repository that keeps its tables in memory and draws the identifiers 1, 2, 3; user 9 moderates.
use progetto_sdcc.Prelude.{
  ℕ, suc, ◌≡◌, refl, true, false, none, some, List, [], ◌∷◌, arith, plain, Result, ok, err, ◌==◌,
  if◌then◌else◌, inl, inr, Option-cases, Bool-cases,
}
use progetto_sdcc.Gallery.{Gallery, gallery_open, gallery_closed}
use progetto_sdcc.Gallery.Command.{
  CommandRepository, State, Command, creates, deletes, closes, joins, leaves, alerts, execute,
}
use progetto_sdcc.Gallery.Command.Tables.{Tables, put_gallery, remove_gallery, set_member, Laws}
use progetto_sdcc.Gallery.Command.Transitions.{tables_of, Executed, execute-Executed}
use progetto_sdcc.Gallery.Command.Closing.{run}
use progetto_sdcc.Gallery.Command.Interleaving.{System, Label, begins, finishes, run_steps}
use progetto_sdcc.Gallery.Command.Interleaving.Proper.{Proper}
use progetto_sdcc.Gallery.Command.Interleaving.Shut.{Quiet, run_steps-Quiet}
use progetto_sdcc.Gallery.Command.Interleaving.Races.{
  Obliging, join_race-member, deletion_race-there,
}
use progetto_sdcc.Auth.{Claims}
use progetto_sdcc.Gallery.Query.{Uuids}
use progetto_sdcc.Gallery.Api.Commands.{close_request, serve}
use progetto_sdcc.Gallery.Api.Authorization.{Justified, serve-Justified}

record Memory : Type 0 where
  tables : Tables
  next : ℕ

abbrev stamped : ℕ → Gallery → Gallery
stamped now g = record g { created_at = now; updated_at = now }

abbrev create : Gallery → Memory → Result Gallery × Memory
create g m = elim (g.id == 0) [
  | true ↦ (err (plain "no key"), m)
  | false ↦ elim (m.tables.galleries g.id) [
    | none ↦ (ok (stamped m.next g), record m { tables = put_gallery (stamped m.next g) m.tables })
    | some h ↦ (err (plain "duplicate key"), m)
  ]
]

abbrev read : ℕ → Memory → Result Gallery × Memory
read id m = elim (m.tables.galleries id) [
  | none ↦ (err (plain "record not found"), m)
  | some g ↦ (if g.id == id then ok g else err (plain "corrupt"), m)
]

abbrev memory : CommandRepository
memory = record {
  World = Memory;
  create_gallery = create;
  get_gallery = read;
  update_gallery = λ g m. (ok tt, record m { tables = put_gallery g m.tables });
  delete_gallery = λ id m. (ok tt, record m { tables = remove_gallery id m.tables });
  join_gallery = λ g u m. (ok tt, record m { tables = set_member g u true m.tables });
  leave_gallery = λ g u m. (ok tt, record m { tables = set_member g u false m.tables });
  now = λ m. m.next;
  new_uuid = λ m. (m.next, record m { next = suc m.next });
}

memory_laws : Laws memory
memory_laws = record {
  tables = λ m. m.tables;
  create_ok = λ g g' m h. elim (Option-cases (m.tables.galleries g.id)) [
    | inl e ↦ elim (Bool-cases (g.id == 0)) [
      | inl z ↦ absurd (ground arith)
      | inr z ↦ (ground arith, ground arith, ground arith, ground arith)
    ]
    | inr (x, e) ↦ absurd (ground arith)
  ];
  create_err = λ g e m h. elim (Option-cases (m.tables.galleries g.id)) [
    | inl q ↦ elim (Bool-cases (g.id == 0)) [ inl z ↦ ground arith | inr z ↦ absurd (ground arith) ]
    | inr (x, q) ↦ ground arith
  ];
  get_same = λ id m. elim (Option-cases (m.tables.galleries id)) [
    | inl q ↦ ground arith
    | inr (x, q) ↦ ground arith
  ];
  get_ok = λ id g m h. elim (Option-cases (m.tables.galleries id)) [
    | inl q ↦ absurd (ground arith)
    | inr (x, q) ↦ (ground arith, ground arith)
  ];
  updated = λ g m. refl;
  deleted = λ id m. refl;
  joined = λ g u m. refl;
  left = λ g u m. refl;
  drawn = λ m. refl;
}

abbrev fresh : State memory
fresh = record {
  world = record {
    tables = record { galleries = λ id. none; members = λ id user. false };
    next = 1;
  };
  events = [];
}

execute-Executed_example :
    Executed memory memory_laws
      (creates "sea" "" 9)
      fresh
      (execute memory (creates "sea" "" 9) fresh)
execute-Executed_example = execute-Executed memory memory_laws (creates "sea" "" 9) fresh

abbrev closed_sea : Gallery
closed_sea = record {
  id = 1;
  name = "sea";
  description = "";
  gallery_status = gallery_closed;
  moderator_id = 9;
  created_at = 2;
  updated_at = 2;
}

abbrev closing : List Command
closing = creates "sea" "" 9 ∷ joins 1 5 ∷ closes 1 9 ∷ []

abbrev further : List Command
further = joins 1 6 ∷ leaves 1 5 ∷ closes 1 9 ∷ alerts 1 9 "late" ∷ deletes 2 9 ∷ []

after_closing :
    (tables_of memory memory_laws (run memory memory_laws closing fresh)).galleries 1
    ≡ some closed_sea
unfolding execute memory_laws
after_closing = refl

abbrev one_uuid : Uuids
one_uuid = record { parse = λ s. some 1; text = λ n. "one" }

abbrev moderator : Claims
moderator = record { user_id = 9; role = "ROLE_MODERATOR" }

abbrev opening : List Command
opening = creates "sea" "" 9 ∷ joins 1 5 ∷ []

serve-Justified_example :
    Justified
      (some moderator)
      1
      5
      (tables_of memory memory_laws (run memory memory_laws opening fresh))
      (tables_of memory memory_laws
        (serve one_uuid memory
          (some moderator)
          (close_request "one")
          (run memory memory_laws opening fresh)).1)
serve-Justified_example =
    serve-Justified one_uuid memory memory_laws (some moderator) (close_request "one") 1 5
      (run memory memory_laws opening fresh)

-- User 6 joins the closed gallery 1 while user 9 closes it again and alerts its members.
abbrev after : System memory
after = record { in_flight = []; state = run memory memory_laws closing fresh }

abbrev together : List (Label memory)
together = begins (joins 1 6) ∷ begins (closes 1 9) ∷ begins (alerts 1 9 "late") ∷ finishes 0 ∷ []

after-Quiet : Quiet memory memory_laws 1 9 after
unfolding execute memory_laws
after-Quiet = record {
  shut = record { gallery = closed_sea; there = after_closing; closed = refl; owned = refl };
  in_flight = refl;
}

run_steps-Quiet_example : Quiet memory memory_laws 1 9 (run_steps memory together after)
run_steps-Quiet_example = run_steps-Quiet memory memory_laws together 1 9 after refl after-Quiet

memory-Obliging : Obliging memory memory_laws
unfolding memory_laws
memory-Obliging = record {
  reads = λ id g m there named. ground arith;
  updates = λ g m. refl;
  deletes = λ id m. refl;
  joins = λ id user m. refl;
}

abbrev opened : State memory
opened = run memory memory_laws (creates "sea" "" 9 ∷ []) fresh

abbrev open_sea : Gallery
open_sea = record closed_sea { gallery_status = gallery_open }

open_there : (tables_of memory memory_laws opened).galleries 1 ≡ some open_sea
unfolding execute memory_laws
open_there = refl

join_race-member_example :
    let s =
      run_steps memory
        (begins (joins 1 6) ∷ begins (closes 1 9) ∷ finishes 0 ∷ finishes 0 ∷ [])
        (record { in_flight = []; state = opened }) in
    let t = tables_of memory memory_laws s.state in
    (h : Gallery) × (t.galleries 1 ≡ some h)
    × (h.gallery_status ≡ gallery_closed)
    × (t.members 1 6 ≡ true)
join_race-member_example =
    join_race-member memory memory_laws memory-Obliging 1 open_sea opened open_there refl refl 6

deletion_race-there_example :
    let s =
      run_steps memory
        (begins (deletes 1 9) ∷ begins (closes 1 9) ∷ finishes 1 ∷ finishes 0 ∷ [])
        (record { in_flight = []; state = opened }) in
    let t = tables_of memory memory_laws s.state in
    (h : Gallery) × (t.galleries 1 ≡ some h)
    × (h.gallery_status ≡ gallery_closed)
    × (t.members 1 6 ≡ false)
deletion_race-there_example =
    deletion_race-there memory memory_laws memory-Obliging 1 open_sea opened open_there refl refl 6

-- Gallery 1 is created, and its moderator alerts the members while closing it; another without a name
-- is refused.
abbrev unused : System memory
unused = record { in_flight = []; state = fresh }

abbrev busy : List (Label memory)
busy =
    begins (creates "" "" 9)
    ∷ begins (creates "sea" "" 9)
    ∷ finishes 0
    ∷ begins (closes 1 9)
    ∷ begins (alerts 1 9 "last call")
    ∷ finishes 0
    ∷ finishes 0
    ∷ []
