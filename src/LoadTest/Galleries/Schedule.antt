-- ===== src/LoadTest/Galleries/Schedule.antt =====
-- How long a moderator worker runs.
use progetto_sdcc.Prelude.{
  ℕ, zero, suc, ◌+◌, ◌*◌, ◌≤◌, ◌<◌, ◌≡◌, String, true, false, Option, some, List, [], ◌∷◌, arith,
  Result, ok, err, ltb, ◌==◌, is_empty, length, inl, inr, Bool-cases, Result-cases, ◌-◌, ◌<>◌,
}
use progetto_sdcc.Prelude.Int.{pos}
use progetto_sdcc.LoadTest.{OpResult}
use progetto_sdcc.LoadTest.Client.{HttpClient, Request, Response, bearer, as_json}
use progetto_sdcc.LoadTest.Galleries.Workers.{
  State, timed_create_gallery, run_moderator_worker, create_answered, create_sent,
}

-- What Go promises of its clock: it is not turned back by what the program does, and a sleep lasts at
-- least as long as it is asked to.
pub record Clock (client : HttpClient) : Type 0 where
  pub time : client.World → ℕ
  pub read : (w : client.World) → time w ≤ (client.now w).0
  pub later : (w : client.World) → (client.now w).0 ≤ time (client.now w).1
  pub slept : (n : ℕ) (w : client.World) → time w + n ≤ time (client.sleep n w)
  pub sent : (r : Request) (w : client.World) → time w ≤ time (client.send r w).1
  pub stamped : (s : String) (w : client.World) → time w ≤ time (client.stamped s w).1

module _ (client : HttpClient) (gateway : String) (clock : Clock client) where
  abbrev now_of : State client gateway → ℕ
  now_of s = clock.time s.world

  tick : (w : client.World) → clock.time w ≤ clock.time (client.now w).1
  tick w = omega (arith, clock.read w, clock.later w)

  create_answered-later :
      (start : ℕ) (r : Result Response) (w : client.World) (s : State client gateway)
      → clock.time w ≤ now_of (create_answered client gateway start (r, w) s).1
  create_answered-later start (err e) w s = tick w
  create_answered-later start (ok r) w s = elim (Bool-cases (r.status_code == 200)) [
    | inr k ↦ rw k (tick w)
    | inl k ↦ elim (Result-cases (client.decode_gallery r.content)) [
      | inr (e, d) ↦ rw (k, d) (tick w)
      | inl (g, d) ↦ elim (Bool-cases (is_empty g.id)) [
        | inl blank ↦ rw (k, d, blank) (tick w)
        | inr named ↦ rw (k, d, named) (tick w)
      ]
    ]
  ]

  create_sent-later :
      (token : String) (start : ℕ) (r : Result Request) (s : State client gateway)
      → now_of s ≤ now_of (create_sent client gateway token start r s).1
  create_sent-later token start (err e) s = tick s.world
  create_sent-later token start (ok req) s =
      let asked = record req { headers = as_json ∷ bearer token ∷ [] } in
      let reply = client.send asked s.world in
      omega (arith, clock.sent asked s.world, create_answered-later start reply.0 reply.1 s)

  timed_create_gallery-later :
      (token : String) (s : State client gateway)
      → now_of s ≤ now_of (timed_create_gallery client gateway token s).1
  unfolding timed_create_gallery
  timed_create_gallery-later token s =
      let t = client.now s.world in
      let name = client.stamped "loadtest-gallery" t.1 in
      let content =
        client.marshal
          (("name", name.0) ∷ ("description", "created by cmd/loadtestgallery") ∷ []) in
      let asked = client.new_request "POST" (gateway <> "/photogallery/galleries") content in
      omega (
        arith,
        tick s.world,
        clock.stamped "loadtest-gallery" t.1,
        create_sent-later token t.0 asked (record s { world = name.1 }),
      )

  -- The clock after the sleep of a round, and the state in which the round creates a gallery.
  abbrev woken : ℕ → State client gateway → ℕ × client.World
  woken interval s = client.now (client.sleep interval s.world)

  abbrev awake : ℕ → State client gateway → State client gateway
  awake interval s = record s { world = (woken interval s).1 }

  abbrev worked : String → ℕ → State client gateway → OpResult × State client gateway
  worked token interval s = timed_create_gallery client gateway token (awake interval s)

  abbrev run : ℕ → String → ℕ → ℕ → State client gateway → Option (List OpResult)
  run fuel token interval stop s =
      (run_moderator_worker client gateway fuel token (pos interval) stop s).0

  run_last :
      (fuel : ℕ) (token : String) (interval stop : ℕ) (s : State client gateway)
      → ltb stop (woken interval s).0 ≡ true
      → run (suc fuel) token interval stop s ≡ some []
  unfolding run_moderator_worker
  run_last fuel token interval stop s h = ground (arith, h)

  run_more :
      (fuel : ℕ) (token : String) (interval stop : ℕ) (s : State client gateway)
      (rs : List OpResult)
      → ltb stop (woken interval s).0 ≡ false
      → run fuel token interval stop (worked token interval s).1 ≡ some rs
      → run (suc fuel) token interval stop s ≡ some ((worked token interval s).0 ∷ rs)
  unfolding run_moderator_worker
  run_more fuel token interval stop s rs h k = ground (arith, h, k)

  -- If the clock is not turned back and sleeps last as long as they should, then a moderator worker
  -- whose interval is positive ends, within one round more than intervals fit before the time to
  -- stop, and has tried to create at most as many galleries as intervals fit.
  pub run_moderator_worker-ends :
      (fuel : ℕ) (token : String) (interval stop : ℕ) (s : State client gateway)
      → stop < clock.time s.world + suc fuel * interval
      → (rs : List OpResult) × ((run_moderator_worker client gateway
            (suc fuel)
            token
            (pos interval)
            stop
            s).0
          ≡ some rs)
        × (length rs * interval ≤ stop - clock.time s.world)
  run_moderator_worker-ends zero token interval stop s h =
      let asleep = clock.slept interval s.world in
      let read = clock.read (client.sleep interval s.world) in
      let over : stop < (woken interval s).0 = omega (arith, h, asleep, read) in
      ([], run_last zero token interval stop s (ground (arith, over)), omega arith)
  run_moderator_worker-ends (suc fuel) token interval stop s h =
      let asleep = clock.slept interval s.world in
      let read = clock.read (client.sleep interval s.world) in
      let later = clock.later (client.sleep interval s.world) in
      let worked_later = timed_create_gallery-later token (awake interval s) in
      let s' = (worked token interval s).1 in
      elim (Bool-cases (ltb stop (woken interval s).0)) [
        | inl over ↦ ([], run_last (suc fuel) token interval stop s over, omega arith)
        | inr early ↦
            let soon : (woken interval s).0 ≤ stop = ground (arith, early) in
            let (rs, q, few) =
              run_moderator_worker-ends fuel token interval stop s'
                (omega (arith, h, asleep, read, later, worked_later)) in
            (
              (worked token interval s).0 ∷ rs,
              run_more (suc fuel) token interval stop s rs early q,
              omega (arith, asleep, read, later, worked_later, soon, few),
            )
      ]
