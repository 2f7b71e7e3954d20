-- ===== src/Upload/Publisher.antt =====
-- internal/upload/events/publisher.go: the publisher of upload events. The AMQP client, JSON and the
-- clock are a parameter. The mutex is not reentrant: locking it while it is held does not return, so
-- a run either returns or is blocked in the state that it reached.
pub mod Deadlock
pub mod Connections
mod Tests
use progetto_sdcc.Prelude.{
  ℕ, String, Bool, true, false, Option, none, some, Error, wrapped, plain, circuit_open, Result, ok,
  err, if◌then◌else◌,
}
use progetto_sdcc.CircuitBreaker.{CircuitBreaker, new_circuit_breaker, admit, settle, is_failure}
use progetto_sdcc.Upload.Record.{UploadEvent}

-- Connections and channels are handles.
pub record Broker : Type 1 where
  pub World : Type 0
  pub Payload : Type 0
  pub Body : Type 0
  pub dial : World → Result ℕ × World
  pub open_channel : ℕ → World → Result ℕ × World
  pub declare_exchange : ℕ → World → Result (Unit {0}) × World
  pub close_channel : ℕ → World → Result (Unit {0}) × World
  pub close_connection : ℕ → World → Result (Unit {0}) × World
  -- `PublishWithContext` on a channel: routing key and body
  pub publish_message : ℕ → String → Body → World → Result (Unit {0}) × World
  -- `json.Marshal` of an event, and of an envelope: event type, time stamp and payload
  pub marshal_event : UploadEvent → Result Payload
  pub marshal_envelope : String → ℕ → Payload → Result Body
  pub now : World → ℕ

abbrev pub routing_photo : String
routing_photo = "gallery.photo_uploaded"

module _ (broker : Broker) where
  open broker use {World, Body}

  pub record Publisher : Type 0 where
    pub locked : Bool
    pub conn : Option ℕ
    pub channel : Option ℕ
    pub breaker : CircuitBreaker
    pub world : World

  pub data Run (A : Type 0) : Type 0 where
    returned : Result A → Publisher → Run A
    blocked : Publisher → Run A

  abbrev pub Action : Type 0 → Type 0
  Action A = Publisher → Run A

  abbrev pub and_then : {A B : Type 0} → Run A → (A → Action B) → Run B
  and_then (returned (ok a) p) f = f a p
  and_then (returned (err e) p) f = returned (err e) p
  and_then (blocked p) f = blocked p

  infixl 5 ◌>>=◌ ◌>>◌
  abbrev ◌>>=◌ : {A B : Type 0} → Action A → (A → Action B) → Action B
  ◌>>=◌ m f p = and_then (m p) f

  abbrev ◌>>◌ : {B : Type 0} → Action (Unit {0}) → Action B → Action B
  m >> k = m >>= λ _. k

  abbrev lock : Action (Unit {0})
  lock p = if p.locked then blocked p else returned (ok tt) (record p { locked = true })

  abbrev unlock : Action (Unit {0})
  unlock p = returned (ok tt) (record p { locked = false })

  -- A call of the client that must succeed.
  abbrev ask : {A : Type 0} → (World → Result A × World) → Action A
  ask f p = returned (f p.world).0 (record p { world = (f p.world).1 })

  -- A call whose error is thrown away.
  abbrev quietly : {A : Type 0} → (World → Result A × World) → Action (Unit {0})
  quietly f p = returned (ok tt) (record p { world = (f p.world).1 })

  -- `if err != nil { cleanup; return fmt.Errorf("text: %w", err) }`
  abbrev handled : {A : Type 0} → String → Action (Unit {0}) → Run A → Run A
  handled text cleanup (returned (ok a) p) = returned (ok a) p
  handled text cleanup (returned (err e) p) =
      and_then (cleanup p) (λ _ q. returned (err (wrapped text e)) q)
  handled text cleanup (blocked p) = blocked p

  abbrev or_else : {A : Type 0} → Action A → String → Action (Unit {0}) → Action A
  or_else m text cleanup p = handled text cleanup (m p)

  abbrev done : Action (Unit {0})
  done p = returned (ok tt) p

  abbrev close_old_channel : Option ℕ → Action (Unit {0})
  close_old_channel none = done
  close_old_channel (some ch) = quietly (broker.close_channel ch)

  abbrev close_old_connection : Option ℕ → Action (Unit {0})
  close_old_connection none = done
  close_old_connection (some c) = quietly (broker.close_connection c)

  -- The critical section of `connect`, which hands out the old handles.
  abbrev install : ℕ → ℕ → Action (Option ℕ × Option ℕ)
  install c ch p =
      returned (ok (p.conn, p.channel))
        (record p { conn = some c; channel = some ch; locked = false })

  -- `connect` from its critical section on.
  abbrev pub finish : ℕ → ℕ → Action (Unit {0})
  finish conn ch = do
    lock
    (old_conn, old_ch) ← install conn ch
    close_old_channel old_ch
    close_old_connection old_conn

  unfoldable pub connect : Action (Unit {0})
  connect = do
    conn ← or_else (ask broker.dial) "dial" done
    ch ← or_else (ask (broker.open_channel conn)) "channel" (quietly (broker.close_connection conn))
    or_else (ask (broker.declare_exchange ch)) "exchange declare"
        (do quietly (broker.close_channel ch); quietly (broker.close_connection conn))
    finish conn ch

  -- A call on a handle, which panics where there is none.
  abbrev on_handle : (ℕ → World → Result (Unit {0}) × World) → Option ℕ → Action (Unit {0})
  on_handle f none p = returned (err (plain "nil pointer dereference")) p
  on_handle f (some h) p = ask (f h) p

  -- `Close`, which does not lock.
  unfoldable pub close : Action (Unit {0})
  close p =
      and_then (on_handle broker.close_channel p.channel p)
        λ closed. on_handle broker.close_connection p.conn

  unfoldable pub try_publish : String → Body → Action (Unit {0})
  try_publish key body p = elim p.channel [
    | none ↦ returned (err (plain "channel is nil")) p
    | some ch ↦ ask (broker.publish_message ch key body) p
  ]

  -- `defer p.mu.Unlock()`
  abbrev deferred_unlock : Run (Unit {0}) → Run (Unit {0})
  deferred_unlock (returned r p) = returned r (record p { locked = false })
  deferred_unlock (blocked p) = blocked p

  -- One reconnect after a failed first try.
  abbrev retried : String → Body → Run (Unit {0}) → Run (Unit {0})
  retried key body (returned (ok u) p) = returned (ok u) p
  retried key body (returned (err e) p) =
      and_then (or_else connect "reconnect" done p) (λ _. try_publish key body)
  retried key body (blocked p) = blocked p

  unfoldable pub publish : String → Body → Action (Unit {0})
  publish key body = do lock; λ p. deferred_unlock (retried key body (try_publish key body p))

  abbrev failed : Result (Unit {0}) → Bool
  failed (ok u) = false
  failed (err e) = true

  -- The second critical section of the breaker's `Call`, if the function has returned.
  abbrev pub settled : Run (Unit {0}) → Run (Unit {0})
  settled (returned r p) =
      returned r (record p { breaker = settle p.breaker (broker.now p.world) (failed r) })
  settled (blocked p) = blocked p

  -- `p.breaker.Call` around `publish`.
  unfoldable pub guarded_publish : String → Body → Action (Unit {0})
  guarded_publish key body p =
      let (cb, runs) = admit p.breaker (broker.now p.world) in
      if runs
      then settled (publish key body (record p { breaker = cb }))
      else returned (err circuit_open) (record p { breaker = cb })

  -- What PublishPhoto does with an error is to log it.
  abbrev pub logged : Run (Unit {0}) → Run (Unit {0})
  logged (returned r p) = returned (ok tt) p
  logged (blocked p) = blocked p

  abbrev with_body : Result Body → Action (Unit {0})
  with_body (ok body) p = logged (guarded_publish routing_photo body p)
  with_body (err e) p = returned (ok tt) p

  abbrev with_payload : Result broker.Payload → Action (Unit {0})
  with_payload (ok payload) p =
      with_body (broker.marshal_envelope "PhotoUploaded" (broker.now p.world) payload) p
  with_payload (err e) p = returned (ok tt) p

  unfoldable pub publish_photo : UploadEvent → Action (Unit {0})
  publish_photo event = with_payload (broker.marshal_event event)

  -- `NewPublisher` before its first `connect`, whose error it logs.
  unfoldable pub fresh : ℕ → ℕ → World → Publisher
  fresh max reset w = record {
    locked = false;
    conn = none;
    channel = none;
    breaker = new_circuit_breaker max reset;
    world = w;
  }

  unfoldable pub new_publisher : ℕ → ℕ → World → Run (Unit {0})
  new_publisher max reset w = logged (connect (fresh max reset w))
