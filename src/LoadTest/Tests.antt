-- ===== src/LoadTest/Tests.antt =====
-- Three requests of which one fails; the default flags; a clock that the requests do not turn.
use native.Mathlib.Nat.{le-div_iff_mul-le, mul-le-mul_right}
use progetto_sdcc.Prelude.{
  ℕ, suc, ◌+◌, ◌*◌, ◌/◌, ◌-◌, ◌≤◌, ◌≡◌, refl, true, false, some, List, [], ◌∷◌, ok, arith, length,
}
use progetto_sdcc.Prelude.Int.{pos}
use progetto_sdcc.LoadTest.{OpResult}
use progetto_sdcc.LoadTest.Statistics.{Index, OpStats}
use progetto_sdcc.LoadTest.Statistics.Bounds.{Rounds}
use progetto_sdcc.LoadTest.Report.{report}
use progetto_sdcc.LoadTest.Report.Counted.{sum, report-counted}
use progetto_sdcc.LoadTest.Client.{HttpClient}
use progetto_sdcc.LoadTest.Galleries.{
  Flags, Config, parse_flags, list_all_op, build_member_ops, total_weight,
}
use progetto_sdcc.LoadTest.Galleries.Workers.{State, run_moderator_worker}
use progetto_sdcc.LoadTest.Galleries.Weights.{count, picks, picks-percentage}
use progetto_sdcc.LoadTest.Galleries.Schedule.{Clock, run_moderator_worker-ends}

abbrev index : Index
index p n = (p * n) / 100

index-Rounds : Rounds index
index-Rounds = record {
  grows = λ p q n h.
      let more : p * n ≤ q * n = mul-le-mul_right n h in
      (le-div_iff_mul-le (omega arith)).1 (omega (arith, more));
  within = λ p n h. let less : p * n ≤ 100 * n = mul-le-mul_right n h in omega (arith, less);
}

abbrev results : List OpResult
results =
    record { op = "getGallery"; latency = 30; succeeded = true }
    ∷ record { op = "joinGallery"; latency = 10; succeeded = false }
    ∷ record { op = "getGallery"; latency = 20; succeeded = true }
    ∷ []

report-counted_example :
    (sum (λ (s : OpStats). s.count) (report index results) ≡ 3)
    × (sum (λ (s : OpStats). s.errors) (report index results) ≡ 1)
report-counted_example = report-counted index results

abbrev flags : Flags
flags = record {
  moderators = pos 5;
  members = pos 50;
  duration = pos 60000000000;
  create_interval = pos 3000000000;
  join_pct = pos 15;
  leave_pct = pos 10;
  get_pct = pos 20;
  list_members_pct = pos 15;
  list_my_pct = pos 20;
}

abbrev config : Config
config = record {
  moderators = 5;
  members = 50;
  duration = pos 60000000000;
  create_interval = pos 3000000000;
  join_pct = 15;
  leave_pct = 10;
  get_pct = 20;
  list_members_pct = 15;
  list_my_pct = 20;
}

accepted : parse_flags flags ≡ ok config
unfolding parse_flags
accepted = refl

picks-percentage_example :
    (total_weight (build_member_ops config) ≡ 100)
    × (count (picks list_all_op (build_member_ops config)) 100 ≡ 20)
picks-percentage_example = picks-percentage flags config list_all_op accepted (ground arith)

-- The world is the clock; every request is answered with a gallery.
abbrev client : HttpClient
client = record {
  World = ℕ;
  now = λ w. (w, w);
  sleep = λ n w. w + n;
  intn = λ n w. (0, w);
  new_request = λ method url content.
      ok (record { method = method; url = url; content = content; headers = [] });
  send = λ r w. (ok (record { status_code = 200; content = "7" }), suc w);
  stamped = λ s w. (s, w);
  marshal = λ fields. "{}";
  decode_token = λ s. ok s;
  decode_gallery = λ s. ok (record { id = s; name = "sea" });
}

clock : Clock client
clock = record {
  time = λ w. w;
  read = λ w. omega arith;
  later = λ w. omega arith;
  slept = λ n w. omega arith;
  sent = λ r w. omega arith;
  stamped = λ s w. omega arith;
}

abbrev start : State client "http://localhost:8080"
start = record { world = 0; pool = [] }

-- Two intervals of 10 fit before 25.
run_moderator_worker-ends_example :
    (rs : List OpResult) × ((run_moderator_worker client "http://localhost:8080" 3 "token"
        (pos 10)
        25
        start).0
      ≡ some rs)
    × (length rs * 10 ≤ 25 - 0)
unfolding clock
run_moderator_worker-ends_example =
    run_moderator_worker-ends client "http://localhost:8080" clock 2 "token" 10 25 start
      (omega arith)
