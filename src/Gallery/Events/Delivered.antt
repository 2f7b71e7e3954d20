-- ===== src/Gallery/Events/Delivered.antt =====
-- From an event of the gallery service to the notification that the consumer makes of it.
use text.Mathlib.Text.{◌==◌ as str_eq}
use progetto_sdcc.Prelude.{
  ℕ, ◌≡◌, ◌≢◌, refl, sym, ap, subst, ◌∙◌, String, ◌<>◌, Bool, true, false, some, wrapped, ok, ◌==◌,
}
use progetto_sdcc.Prelude.Action.{or_fail}
use progetto_sdcc.Gallery.Command.{Event, gallery_closed_event, moderator_alert}
use progetto_sdcc.Gallery.Events.{
  Broker, event_type, routing_key_for, binding_key, RabbitMqPublisher, publish,
}
use progetto_sdcc.Consumer.{
  GalleryClosedPayload, ModeratorAlertPayload, Notification, Services, Consumer, Verdict,
  gallery_closed, published, handle,
}
use progetto_sdcc.Consumer as Consumer
use progetto_sdcc.Consumer.Deliveries.{
  recognized, Announces, of_photo, of_alert, of_closing, malformed, ignored, dropped, fanned_out,
  handle-Handled, well_formed,
}

abbrev gallery_of : Event → ℕ
gallery_of (gallery_closed_event g name) = g
gallery_of (moderator_alert g name message) = g

-- A key that the binding of the queue lets through. In the pattern of a topic exchange, `#` stands
-- for any words.
pub record Topics : Type 0 where
  pub matches : String → String → Bool
  pub all_words : (rest : String) → matches "gallery.#" ("gallery." <> rest) ≡ true

module _ (broker : Broker) (services : Services) (wire : broker.Body → services.Body) where
  -- The payload decodes to what the event says.
  abbrev pub Decodes : Event → services.Payload → Type 0
  Decodes (gallery_closed_event g name) p =
      services.decode_closed p ≡ ok (record { gallery_id = g; gallery_name = name })
  Decodes (moderator_alert g name message) p =
      services.decode_alert p
      ≡ ok (record { gallery_id = g; gallery_name = name; message = message })

  -- What JSON promises: events are encoded, and decoded on the other side.
  pub record Carried : Type 0 where
    pub marshalled :
        (e : Event) → (payload : broker.Payload) × (broker.marshal_payload e ≡ ok payload)
    pub sealed :
        (e : Event) (payload : broker.Payload) (t : ℕ)
        → broker.marshal_payload e ≡ ok payload
        → (body : broker.Body) × (received : services.Payload) × (broker.marshal_envelope
              (event_type e)
              t
              payload
            ≡ ok body)
          × (services.decode (wire body) ≡ some (event_type e, t, received))
          × Decodes e received

  -- The notification says what the event says.
  abbrev pub Says : Event → Notification → Type 0
  Says (gallery_closed_event g name) n =
      (n.notification_type ≡ Consumer.gallery_closed) × (n.gallery_id ≡ services.uuid_string g)
  Says (moderator_alert g name message) n =
      (n.notification_type ≡ Consumer.moderator_alert)
      × (n.gallery_id ≡ services.uuid_string g)
      × (n.message ≡ message)

  routing_key-matches :
      (topics : Topics) (e : Event)
      → topics.matches binding_key (routing_key_for (event_type e)) ≡ true
  unfolding routing_key_for
  routing_key-matches topics (gallery_closed_event g name) = topics.all_words "closed"
  routing_key-matches topics (moderator_alert g name message) = topics.all_words "moderator_alert"

  true≢false : true ≢ false
  true≢false q = cc

  recognized-event_type : (e : Event) → recognized (event_type e) ≡ true
  recognized-event_type (gallery_closed_event g name) = refl
  recognized-event_type (moderator_alert g name message) = refl

  well_formed-Decodes :
      (e : Event) (t : String) (p : services.Payload)
      → t ≡ event_type e
      → Decodes e p
      → (gallery_of e == 0) ≡ false
      → well_formed services t p ≡ true
  well_formed-Decodes (gallery_closed_event g name) t p q d z = rw (q, d, z) refl
  well_formed-Decodes (moderator_alert g name message) t p q d z = rw (q, d, z) refl

  Announces-Says :
      (e : Event) (t : String) (p : services.Payload) (c : Consumer services) (n : Notification)
      → t ≡ event_type e
      → Decodes e p
      → Announces services t p c n
      → Says e n
  Announces-Says (gallery_closed_event g name) t p c n q d
        (of_closing m h d' k z i says rest named) =
      let same : m ≡ record { gallery_id = g; gallery_name = name } = cc in
      (k, i ∙ ap (λ (x : GalleryClosedPayload). services.uuid_string x.gallery_id) same)
  Announces-Says (gallery_closed_event g name) t p c n q d
        (of_alert m h d' k z i s rest drawn named) =
      absurd (true≢false (sym (subst (λ x. str_eq x "ModeratorAlert" ≡ true) q h)))
  Announces-Says (gallery_closed_event g name) t p c n q d
        (of_photo m h d' k z i s u up says drawn named) =
      absurd (true≢false (sym (subst (λ x. str_eq x "PhotoUploaded" ≡ true) q h)))
  Announces-Says (moderator_alert g name message) t p c n q d
        (of_alert m h d' k z i s rest drawn named) =
      let same : m ≡ record { gallery_id = g; gallery_name = name; message = message } = cc in
      (
        k,
        i ∙ ap (λ (x : ModeratorAlertPayload). services.uuid_string x.gallery_id) same,
        s ∙ ap (λ (x : ModeratorAlertPayload). x.message) same,
      )
  Announces-Says (moderator_alert g name message) t p c n q d
        (of_closing m h d' k z i says rest named) =
      absurd (true≢false (sym (subst (λ x. str_eq x "GalleryClosed" ≡ true) q h)))
  Announces-Says (moderator_alert g name message) t p c n q d
        (of_photo m h d' k z i s u up says drawn named) =
      absurd (true≢false (sym (subst (λ x. str_eq x "PhotoUploaded" ≡ true) q h)))

  -- One message, under a key that the queue is bound to; the consumer makes of its body a
  -- notification that says what the event says, at its time.
  pub data Travelled (topics : Topics) (e : Event) (p : RabbitMqPublisher) (w : broker.World)
      (c : Consumer services) : Type 0 where
    travelled :
        (key : String) (body : broker.Body) (n : Notification) (c' : Consumer services)
        → publish broker p (event_type e) e w
          ≡ or_fail
              (wrapped ("publish " <> event_type e))
              (broker.publish_message p.channel key body)
              w
        → topics.matches binding_key key ≡ true
        → handle services (wire body) c
          ≡ published services (services.publish_notification n c'.world) c'
        → Says e n
        → n.occurred_at ≡ broker.now w
        → Travelled topics e p w c

  handle-Says :
      (e : Event) (body : services.Body) (t : ℕ) (p : services.Payload) (c : Consumer services)
      → services.decode body ≡ some (event_type e, t, p)
      → Decodes e p
      → (gallery_of e == 0) ≡ false
      → (n : Notification) × (c' : Consumer services) × (handle services body c
          ≡ published services (services.publish_notification n c'.world) c')
        × Says e n
        × (n.occurred_at ≡ t)
  handle-Says e body t p c opened d z =
      elim (handle-Handled services (λ w. tt {0}) (λ w. refl) (λ g w. refl) body c) [
        | malformed undecoded q ↦ absurd cc
        | ignored t' n' x opened' u q ↦
            let same : t' ≡ event_type e = cc in
            absurd (true≢false (sym (recognized-event_type e) ∙ sym (ap recognized same) ∙ u))
        | dropped t' n' x opened' u bad q ↦
            let same : t' ≡ event_type e = cc in
            let load : x ≡ p = cc in
            absurd (
              true≢false
                (sym (well_formed-Decodes e t' x same (subst (Decodes e) (sym load) d) z) ∙ bad))
        | fanned_out t' n' x m c' opened' says kept timed q ↦
            let same : t' ≡ event_type e = cc in
            let load : x ≡ p = cc in
            let time : n' ≡ t = cc in
            (
              m,
              c',
              q,
              Announces-Says e t' x c m same (subst (Decodes e) (sym load) d) says,
              timed ∙ time,
            )
      ]

  -- Publishing an event of a gallery with an identifier that is not nil sends one message, under a
  -- key that the queue of the notification service is bound to. When the consumer gets the
  -- message, it makes a notification of the event's kind, gallery, text and time and publishes it.
  -- This needs that what JSON encodes on one side is decoded on the other.
  pub publish-Travelled :
      (topics : Topics) (carried : Carried) (e : Event) (p : RabbitMqPublisher) (w : broker.World)
      (c : Consumer services)
      → (gallery_of e == 0) ≡ false
      → Travelled topics e p w c
  unfolding publish
  publish-Travelled topics carried e p w c z =
      let (payload, marshalled) = carried.marshalled e in
      let (body, received, sealed, opened, d) =
        carried.sealed e payload (broker.now w) marshalled in
      let (n, c', answered, says, timed) =
        handle-Says e (wire body) (broker.now w) received c opened d z in
      travelled (routing_key_for (event_type e)) body n c' (rw (marshalled, sealed) refl)
        (routing_key-matches topics e) answered says timed
