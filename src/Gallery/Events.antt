-- ===== src/Gallery/Events.antt =====
-- internal/gallery/command/events.go: the publisher of gallery events, and which of them reach the
-- queue of the notification service. The AMQP client, JSON and the clock are a parameter.
pub mod Delivered
mod Tests
use text.Mathlib.Text.{◌==◌ as str_eq}
use progetto_sdcc.Prelude.{ℕ, String, ◌<>◌, Error, wrapped, Result, ok, err, if◌then◌else◌}
use progetto_sdcc.Prelude.Action.{Action, and_then, ◌>>=◌, ◌>>◌, pure, lift, or_fail}
use progetto_sdcc.Gallery.Command.{Event, gallery_closed_event, moderator_alert}

-- Connections and channels are handles.
pub record Broker : Type 1 where
  pub World : Type 0
  pub Payload : Type 0
  pub Body : Type 0
  pub dial : World → Result ℕ × World
  pub open_channel : ℕ → World → Result ℕ × World
  pub declare_exchange : ℕ → World → Result (Unit {0}) × World
  pub close_channel : ℕ → World → Result (Unit {0}) × World
  pub close_connection : ℕ → World → Result (Unit {0}) × World
  -- `PublishWithContext` on a channel: routing key and body
  pub publish_message : ℕ → String → Body → World → Result (Unit {0}) × World
  -- `json.Marshal` of a payload, and of an envelope: event type, time stamp and payload
  pub marshal_payload : Event → Result Payload
  pub marshal_envelope : String → ℕ → Payload → Result Body
  pub now : World → ℕ

-- The event type that a command passes to Publish.
abbrev pub event_type : Event → String
event_type (gallery_closed_event g name) = "GalleryClosed"
event_type (moderator_alert g name message) = "ModeratorAlert"

unfoldable pub routing_key_for : String → String
routing_key_for event =
    if str_eq event "GalleryCreated"
    then "gallery.created"
    else if str_eq event "GalleryClosed"
    then "gallery.closed"
    else if str_eq event "ModeratorAlert"
    then "gallery.moderator_alert"
    else "gallery.unknown"

-- `configuration.BindingKey`, of the queue that the notification service reads.
abbrev pub binding_key : String
binding_key = "gallery.#"

pub record RabbitMqPublisher : Type 0 where
  pub conn : ℕ
  pub channel : ℕ

module _ (broker : Broker) where
  open broker use {World}

  -- A call whose error is thrown away.
  abbrev quietly : {A : Type 0} → Action World A → Action World (Unit {0})
  quietly m w = (ok tt, (m w).1)

  -- `if err != nil { cleanup; return fmt.Errorf("text: %w", err) }`
  abbrev cleaned :
      {A : Type 0} → String → Action World (Unit {0}) → Result A × World → Result A × World
  cleaned text cleanup (ok a, w) = (ok a, w)
  cleaned text cleanup (err e, w) = (err (wrapped text e), (cleanup w).1)

  abbrev or_else : {A : Type 0} → Action World A → String → Action World (Unit {0}) → Action World A
  or_else m text cleanup w = cleaned text cleanup (m w)

  unfoldable pub new_rabbit_mq_publisher : Action World RabbitMqPublisher
  new_rabbit_mq_publisher = do
    conn ← or_fail (wrapped "dial rabbitmq") broker.dial
    ch ← or_else (broker.open_channel conn) "open channel" (quietly (broker.close_connection conn))
    or_else (broker.declare_exchange ch) "declare exchange"
        (do quietly (broker.close_channel ch); quietly (broker.close_connection conn))
    pure (record { conn = conn; channel = ch })

  abbrev clock : Action World ℕ
  clock w = (ok (broker.now w), w)

  unfoldable pub publish : RabbitMqPublisher → String → Event → Action World (Unit {0})
  publish p event payload = do
    body ← or_fail (wrapped "marshal payload") (lift (broker.marshal_payload payload))
    timestamp ← clock
    env_body ←
        or_fail (wrapped "marshal envelope") (lift (broker.marshal_envelope event timestamp body))
    or_fail (wrapped ("publish " <> event))
        (broker.publish_message p.channel (routing_key_for event) env_body)

  unfoldable pub close : RabbitMqPublisher → Action World (Unit {0})
  close p = do broker.close_channel p.channel; broker.close_connection p.conn
