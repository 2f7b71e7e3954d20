-- ===== src/Upload/Publisher/Connections.antt =====
-- The publisher's connections and channels: what is opened is installed or closed.
use progetto_sdcc.Prelude.{
  ℕ, ◌==◌, true, false, refl, ◌≡◌, String, Option, none, some, List, [], ◌∷◌, arith, Result, ok,
  err, if◌then◌else◌, inl, inr, Bool-cases, Option-cases, Result-cases,
}
use progetto_sdcc.CircuitBreaker.{admit}
use progetto_sdcc.Upload.Record.{UploadEvent}
use progetto_sdcc.Upload.Publisher.{
  Broker, routing_photo, Publisher, Run, returned, blocked, connect, publish, guarded_publish,
  publish_photo, settled, fresh, new_publisher,
}
use progetto_sdcc.Upload.Publisher.Deadlock.{
  attempt, connect-attempt, first_try, sent, gave_up, hung, publish-Outcome, state_of,
  state_of-logged, serve_all,
}

-- The connections and the channels that are open, by their handles, the newest first.
pub record Ledger : Type 0 where
  pub connections : List ℕ
  pub channels : List ℕ

abbrev pub strike : ℕ → List ℕ → List ℕ
strike h [] = []
strike h (k ∷ ks) = let rest = strike h ks in if h == k then ks else k ∷ rest

strike-head : (h : ℕ) (ks : List ℕ) → strike h (h ∷ ks) ≡ ks
strike-head h ks = ground arith

abbrev dialling : Result ℕ → Ledger → Ledger
dialling (ok c) l = record l { connections = c ∷ l.connections }
dialling (err e) l = l

abbrev opening : Result ℕ → Ledger → Ledger
opening (ok ch) l = record l { channels = ch ∷ l.channels }
opening (err e) l = l

-- A broker that keeps the ledger; a handle is given up when it is closed, whatever closing returns.
abbrev pub counted : Broker → Broker
counted broker = record {
  World = broker.World × Ledger;
  Payload = broker.Payload;
  Body = broker.Body;
  dial = λ (w, l). let r = broker.dial w in (r.0, (r.1, dialling r.0 l));
  open_channel = λ c (w, l). let r = broker.open_channel c w in (r.0, (r.1, opening r.0 l));
  declare_exchange = λ ch (w, l). let r = broker.declare_exchange ch w in (r.0, (r.1, l));
  close_channel = λ ch (w, l).
      let r = broker.close_channel ch w in
      (r.0, (r.1, record l { channels = strike ch l.channels }));
  close_connection = λ c (w, l).
      let r = broker.close_connection c w in
      (r.0, (r.1, record l { connections = strike c l.connections }));
  publish_message =
      λ ch key body (w, l). let r = broker.publish_message ch key body w in (r.0, (r.1, l));
  marshal_event = broker.marshal_event;
  marshal_envelope = broker.marshal_envelope;
  now = λ (w, l). broker.now w;
}

abbrev pub installed : Option ℕ → List ℕ
installed none = []
installed (some h) = h ∷ []

module _ (broker : Broker) where
  abbrev pub Counted : Type 0
  Counted = Publisher (counted broker)

  -- What is open is installed; a publisher that hangs has one connection and one channel more open.
  pub data Balanced (p : Counted) : Type 0 where
    serves :
        p.locked ≡ false
        → p.world.1.connections ≡ installed p.conn
        → p.world.1.channels ≡ installed p.channel
        → Balanced p
    hangs :
        (c ch : ℕ)
        → p.locked ≡ true
        → p.world.1.connections ≡ c ∷ installed p.conn
        → p.world.1.channels ≡ ch ∷ installed p.channel
        → Balanced p

  abbrev with_handles : Result (ℕ × ℕ) → Ledger → Ledger
  with_handles (ok (c, ch)) l = record {
    connections = c ∷ l.connections;
    channels = ch ∷ l.channels;
  }
  with_handles (err e) l = l

  -- What an attempt opened it hands out, or has closed.
  attempt-ledger :
      (w : broker.World × Ledger)
      → let r = attempt (counted broker) w in r.1.1 ≡ with_handles r.0 w.1
  attempt-ledger (w, l) = elim (Result-cases (broker.dial w).0) [
    | inr (e, h) ↦ ground arith
    | inl (c, h) ↦
        let w1 = (broker.dial w).1 in
        elim (Result-cases (broker.open_channel c w1).0) [
          | inr (e, k) ↦ ground (arith, strike-head c l.connections)
          | inl (ch, k) ↦
              let w2 = (broker.open_channel c w1).1 in
              elim (Result-cases (broker.declare_exchange ch w2).0) [
                | inr (e, m) ↦
                    ground (arith, strike-head c l.connections, strike-head ch l.channels)
                | inl (u, m) ↦ ground arith
              ]
        ]
  ]

  first_try-ledger :
      (key : String) (body : broker.Body) (p : Counted)
      → (first_try (counted broker) key body p).1.1 ≡ p.world.1
  first_try-ledger key body p = elim (Option-cases p.channel) [
    | inl e ↦ ground arith
    | inr (ch, e) ↦ ground arith
  ]

  publish-Balanced :
      (key : String) (body : broker.Body) (p : Counted)
      → Balanced p
      → Balanced (state_of (counted broker) (publish (counted broker) key body p))
  unfolding publish
  publish-Balanced key body p (hangs c ch held cs chs) =
      hangs c ch (ground arith) (ground (arith, cs)) (ground (arith, chs))
  publish-Balanced key body p (serves free cs chs) =
      let kept = first_try-ledger key body p in
      let ledger = attempt-ledger (first_try (counted broker) key body p).1 in
      elim (publish-Outcome (counted broker) key body p free) [
        | sent good r ↦ rw r (serves refl (ground (arith, kept, cs)) (ground (arith, kept, chs)))
        | gave_up x e bad refused r ↦
            rw r
              (serves refl (ground (arith, kept, ledger, cs)) (ground (arith, kept, ledger, chs)))
        | hung x (c, ch) bad made r ↦
            rw r (
              hangs c ch refl (ground (arith, kept, ledger, cs))
                (ground (arith, kept, ledger, chs)))
      ]

  rebroken :
      (p q : Counted)
      → q.locked ≡ p.locked
      → q.world ≡ p.world
      → q.conn ≡ p.conn
      → q.channel ≡ p.channel
      → Balanced p
      → Balanced q
  rebroken p q l w c ch (serves free cs chs) = serves (ground arith) (ground arith) (ground arith)
  rebroken p q l w c ch (hangs h k held cs chs) =
      hangs h k (ground arith) (ground arith) (ground arith)

  settled-Balanced :
      (r : Run (counted broker) (Unit {0}))
      → Balanced (state_of (counted broker) r)
      → Balanced (state_of (counted broker) (settled (counted broker) r))
  settled-Balanced (returned r p) b = rebroken p _ refl refl refl refl b
  settled-Balanced (blocked p) b = b

  guarded_publish-Balanced :
      (key : String) (body : broker.Body) (p : Counted)
      → Balanced p
      → Balanced (state_of (counted broker) (guarded_publish (counted broker) key body p))
  unfolding guarded_publish
  guarded_publish-Balanced key body p b =
      let (cb, runs) = admit p.breaker (broker.now p.world.0) in
      elim (Bool-cases runs) [
        | inr e ↦ rw e (rebroken p (record p { breaker = cb }) refl refl refl refl b)
        | inl e ↦ rw e (
            settled-Balanced (publish (counted broker) key body (record p { breaker = cb })) (
              publish-Balanced key body (record p { breaker = cb })
                (rebroken p (record p { breaker = cb }) refl refl refl refl b)))
      ]

  publish_photo-Balanced :
      (event : UploadEvent) (p : Counted)
      → Balanced p
      → Balanced (state_of (counted broker) (publish_photo (counted broker) event p))
  unfolding publish_photo
  publish_photo-Balanced event p b = elim (Result-cases (broker.marshal_event event)) [
    | inr (e, h) ↦ rw h b
    | inl (payload, h) ↦
        let marshalled = broker.marshal_envelope "PhotoUploaded" (broker.now p.world.0) payload in
        elim (Result-cases marshalled) [
          | inr (e, k) ↦ rw (h, k) b
          | inl (body, k) ↦
              rw
                (
                  h,
                  k,
                  state_of-logged (counted broker)
                      (guarded_publish (counted broker) routing_photo body p),
                )
                (guarded_publish-Balanced routing_photo body p b)
        ]
  ]

  serve_all-Balanced :
      (events : List UploadEvent) (p : Counted)
      → Balanced p
      → Balanced (serve_all (counted broker) events p)
  serve_all-Balanced [] p b = b
  serve_all-Balanced (e ∷ es) p b =
      serve_all-Balanced es (state_of (counted broker) (publish_photo (counted broker) e p))
        (publish_photo-Balanced e p b)

  abbrev pub no_entries : Ledger
  no_entries = record { connections = []; channels = [] }

  new_publisher-Balanced :
      (max reset : ℕ) (w : broker.World)
      → Balanced
          (state_of (counted broker) (new_publisher (counted broker) max reset (w, no_entries)))
  unfolding new_publisher fresh
  new_publisher-Balanced max reset w =
      let p = fresh (counted broker) max reset (w, no_entries) in
      let ledger = attempt-ledger (w, no_entries) in
      rw
        (
          state_of-logged (counted broker) (connect (counted broker) p),
          connect-attempt (counted broker) p,
        )
        (elim (Result-cases (attempt (counted broker) (w, no_entries)).0) [
          | inr (e, h) ↦ serves (ground arith) (ground (arith, ledger)) (ground (arith, ledger))
          | inl ((c, ch), h) ↦
              serves (ground arith) (ground (arith, ledger)) (ground (arith, ledger))
        ])

  -- Whatever the broker answers and whatever events a publisher is given from its start on, of the
  -- connections and channels that were opened exactly the installed ones are not closed, or the
  -- publisher hangs with its lock held, and then exactly one more of each is not.
  pub publisher-Balanced :
      (max reset : ℕ) (w : broker.World) (events : List UploadEvent)
      → Balanced (
          serve_all
            (counted broker)
            events
            (state_of (counted broker) (new_publisher (counted broker) max reset (w, no_entries))))
  publisher-Balanced max reset w events =
      serve_all-Balanced events
        (state_of (counted broker) (new_publisher (counted broker) max reset (w, no_entries)))
        (new_publisher-Balanced max reset w)
