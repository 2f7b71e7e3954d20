-- ===== src/Upload/Publisher/Deadlock.antt =====
-- What publishing comes to: the reconnect locks the mutex that publishing holds.
use progetto_sdcc.Prelude.{
  ℕ, ◌≡◌, refl, String, true, false, none, some, List, [], ◌∷◌, arith, Error, wrapped, plain,
  Result, ok, err, inl, inr, Bool-cases, Option-cases, Result-cases,
}
use progetto_sdcc.CircuitBreaker.{admit}
use progetto_sdcc.Upload.Record.{UploadEvent}
use progetto_sdcc.Upload.Publisher.{
  Broker, routing_photo, Publisher, Run, returned, blocked, finish, connect, try_publish, publish,
  logged, guarded_publish, publish_photo,
}

module _ (broker : Broker) where
  open broker use {World, Body}

  abbrev second_step : ℕ → Result ℕ × World → Result (ℕ × ℕ) × World
  second_step c (err e, w) = (err (wrapped "channel" e), (broker.close_connection c w).1)
  second_step c (ok ch, w) = elim (broker.declare_exchange ch w).0 [
    | ok u ↦ (ok (c, ch), (broker.declare_exchange ch w).1)
    | err e ↦ (
      err (wrapped "exchange declare" e),
      (broker.close_connection c (broker.close_channel ch (broker.declare_exchange ch w).1).1).1,
    )
  ]

  abbrev first_step : Result ℕ × World → Result (ℕ × ℕ) × World
  first_step (err e, w) = (err (wrapped "dial" e), w)
  first_step (ok c, w) = second_step c (broker.open_channel c w)

  -- The part of a connection attempt that needs no lock: a connection and a channel on which the
  -- exchange is declared, or an error after what was opened is closed.
  abbrev pub attempt : World → Result (ℕ × ℕ) × World
  attempt w = first_step (broker.dial w)

  -- What `connect` does with the outcome of the attempt.
  abbrev pub after_attempt : Publisher broker → Result (ℕ × ℕ) × World → Run broker (Unit {0})
  after_attempt p (err e, w) = returned (err e) (record p { world = w })
  after_attempt p (ok (c, ch), w) = finish broker c ch (record p { world = w })

  pub connect-attempt :
      (p : Publisher broker) → connect broker p ≡ after_attempt p (attempt p.world)
  unfolding connect
  connect-attempt p = elim (Result-cases (broker.dial p.world).0) [
    | inr (e, h) ↦ ground arith
    | inl (c, h) ↦
        let w = (broker.dial p.world).1 in
        elim (Result-cases (broker.open_channel c w).0) [
          | inr (e, k) ↦ ground arith
          | inl (ch, k) ↦
              let w' = (broker.open_channel c w).1 in
              elim (Result-cases (broker.declare_exchange ch w').0) [
                | inr (e, l) ↦ ground arith
                | inl (u, l) ↦ ground arith
              ]
        ]
  ]

  -- The first try of `publish`: its result, and the world after it.
  abbrev pub first_try : String → Body → Publisher broker → Result (Unit {0}) × World
  first_try key body p = elim p.channel [
    | none ↦ (err (plain "channel is nil"), p.world)
    | some ch ↦ broker.publish_message ch key body p.world
  ]

  -- How publishing can end.
  pub data Outcome (key : String) (body : Body) (p : Publisher broker) (r : Run broker (Unit {0}))
      : Type 0 where
    sent :
        (first_try key body p).0 ≡ ok tt
        → r ≡ returned (ok tt) (record p { locked = false; world = (first_try key body p).1 })
        → Outcome key body p r
    gave_up :
        (x e : Error)
        → (first_try key body p).0 ≡ err x
        → (attempt (first_try key body p).1).0 ≡ err e
        → r
          ≡ returned
              (err (wrapped "reconnect" e))
              (record p { locked = false; world = (attempt (first_try key body p).1).1 })
        → Outcome key body p r
    hung :
        (x : Error) (handles : ℕ × ℕ)
        → (first_try key body p).0 ≡ err x
        → (attempt (first_try key body p).1).0 ≡ ok handles
        → r ≡ blocked (record p { locked = true; world = (attempt (first_try key body p).1).1 })
        → Outcome key body p r

  try_publish-first_try :
      (key : String) (body : Body) (p : Publisher broker)
      → try_publish broker key body p
        ≡ returned (first_try key body p).0 (record p { world = (first_try key body p).1 })
  unfolding try_publish
  try_publish-first_try key body p = elim (Option-cases p.channel) [
    | inl e ↦ ground arith
    | inr (ch, e) ↦ ground arith
  ]

  -- If nobody holds the lock, then publishing ends in one of three ways. The first try succeeds, and
  -- nothing else happens. Or it fails, no new connection can be made, and the error of that is
  -- returned. Or it fails and a new connection is made: then publishing does not return, and the
  -- lock stays held; no second try is ever made.
  pub publish-Outcome :
      (key : String) (body : Body) (p : Publisher broker)
      → p.locked ≡ false
      → Outcome key body p (publish broker key body p)
  unfolding publish
  publish-Outcome key body p free =
      let held = record p { locked = true } in
      let first = try_publish-first_try key body held in
      elim (Result-cases (first_try key body p).0) [
        | inl (u, h) ↦ sent h (ground arith)
        | inr (x, h) ↦
            let again = record held { world = (first_try key body p).1 } in
            let reconnect = connect-attempt again in
            elim (Result-cases (attempt (first_try key body p).1).0) [
              | inr (e, k) ↦ gave_up x e h k (ground arith)
              | inl (handles, k) ↦ hung x handles h k (ground arith)
            ]
      ]

  abbrev pub state_of : {A : Type 0} → Run broker A → Publisher broker
  state_of (returned r p) = p
  state_of (blocked p) = p

  -- Events handed to the publisher one after the other, each from the state that the call before it
  -- reached, whether that call returned or hangs.
  abbrev pub serve_all : List UploadEvent → Publisher broker → Publisher broker
  serve_all [] p = p
  serve_all (e ∷ es) p = serve_all es (state_of (publish_photo broker e p))

  -- The lock is held, and the world is this one.
  record Stuck (w : World) (p : Publisher broker) : Type 0 where
    held : p.locked ≡ true
    same : p.world ≡ w

  guarded_publish-Stuck :
      (key : String) (body : Body) (w : World) (p : Publisher broker)
      → Stuck w p
      → Stuck w (state_of (guarded_publish broker key body p))
  unfolding guarded_publish publish
  guarded_publish-Stuck key body w p s =
      elim (Bool-cases (admit p.breaker (broker.now p.world)).1) [
        | inl e ↦ record { held = ground (arith, s.held); same = ground (arith, s.held, s.same) }
        | inr e ↦ record { held = ground (arith, s.held); same = ground (arith, s.held, s.same) }
      ]

  pub state_of-logged : (r : Run broker (Unit {0})) → state_of (logged broker r) ≡ state_of r
  state_of-logged (returned r p) = refl
  state_of-logged (blocked p) = refl

  publish_photo-Stuck :
      (event : UploadEvent) (w : World) (p : Publisher broker)
      → Stuck w p
      → Stuck w (state_of (publish_photo broker event p))
  unfolding publish_photo
  publish_photo-Stuck event w p s = elim (Result-cases (broker.marshal_event event)) [
    | inr (e, h) ↦ rw h s
    | inl (payload, h) ↦
        elim (Result-cases (broker.marshal_envelope "PhotoUploaded" (broker.now p.world) payload)) [
          | inr (e, k) ↦ rw (h, k) s
          | inl (body, k) ↦
              let g = guarded_publish-Stuck routing_photo body w p s in
              let r = guarded_publish broker routing_photo body p in
              let same : state_of (publish_photo broker event p) ≡ state_of r =
                rw (h, k) (state_of-logged r) in
              rw same g
        ]
  ]

  serve_all-Stuck :
      (events : List UploadEvent) (w : World) (p : Publisher broker)
      → Stuck w p
      → Stuck w (serve_all events p)
  serve_all-Stuck [] w p s = s
  serve_all-Stuck (e ∷ es) w p s =
      serve_all-Stuck es w (state_of (publish_photo broker e p)) (publish_photo-Stuck e w p s)

  -- If an event is marshalled and let through by the breaker, its publication fails at first, and a
  -- new connection can be made, then the publisher is lost: whatever events follow, the lock stays
  -- held and no further call of the broker is made.
  pub never_recovers :
      (event : UploadEvent) (events : List UploadEvent) (p : Publisher broker)
      (payload : broker.Payload) (body : Body) (x : Error) (handles : ℕ × ℕ)
      → p.locked ≡ false
      → broker.marshal_event event ≡ ok payload
      → broker.marshal_envelope "PhotoUploaded" (broker.now p.world) payload ≡ ok body
      → (admit p.breaker (broker.now p.world)).1 ≡ true
      → (first_try routing_photo body p).0 ≡ err x
      → (attempt (first_try routing_photo body p).1).0 ≡ ok handles
      → ((serve_all (event ∷ events) p).locked ≡ true)
        × ((serve_all (event ∷ events) p).world ≡ (attempt (first_try routing_photo body p).1).1)
  unfolding publish_photo guarded_publish
  never_recovers event events p payload body x handles free m n admitted fails connects =
      let cb = (admit p.breaker (broker.now p.world)).0 in
      let w = (attempt (first_try routing_photo body p).1).1 in
      let hangs : publish broker routing_photo body (record p { breaker = cb })
          ≡ blocked (record p { breaker = cb; locked = true; world = w }) =
        elim (publish-Outcome routing_photo body (record p { breaker = cb }) free) [
          | sent good r ↦ absurd (ground arith)
          | gave_up y e bad none_left r ↦ absurd (ground arith)
          | hung y hs bad made r ↦ r
        ] in
      let after : Stuck w (state_of (publish_photo broker event p)) = record {
        held = ground arith;
        same = ground arith;
      } in
      let s = serve_all-Stuck events w (state_of (publish_photo broker event p)) after in
      (s.held, s.same)
