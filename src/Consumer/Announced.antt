-- ===== src/Consumer/Announced.antt =====
-- What becomes of a delivery, with a record of the notifications that are published.
use progetto_sdcc.Prelude.{
  ℕ, ◌≡◌, refl, String, Bool, true, false, none, some, List, ◌∷◌, is_ok, arith, if◌then◌else◌, inl,
  inr, Result-cases,
}
use progetto_sdcc.Consumer.{Notification, Services, Verdict, ack, nack, Consumer, handle}
use progetto_sdcc.Consumer.Deliveries as Deliveries
use progetto_sdcc.Consumer.Deliveries.{recognized, well_formed, Announces, handle-Handled}

-- The services with a list of the notifications published so far, the newest first, and whether
-- publishing them succeeded.
abbrev pub recorded : Services → Services
recorded services = record {
  Body = services.Body;
  Payload = services.Payload;
  World = services.World × List (Notification × Bool);
  decode = services.decode;
  decode_photo = services.decode_photo;
  decode_alert = services.decode_alert;
  decode_closed = services.decode_closed;
  get_gallery = λ g (w, l). let r = services.get_gallery g w in (r.0, (r.1, l));
  publish_notification =
      λ n (w, l). let r = services.publish_notification n w in (r.0, (r.1, (n, is_ok r.0) ∷ l));
  new_uuid = λ (w, l). let r = services.new_uuid w in (r.0, (r.1, l));
  uuid_string = services.uuid_string;
}

module _ (services : Services) where
  abbrev pub Recorded : Type 0
  Recorded = Consumer (recorded services)

  abbrev pub notifications : Recorded → List (Notification × Bool)
  notifications c = c.world.1

  -- How a delivery ends.
  pub data Handled (body : services.Body) (c : Recorded) (r : Verdict × Recorded) : Type 0 where
    malformed : services.decode body ≡ none → r ≡ (nack, c) → Handled body c r
    ignored :
        (t : String) (n : ℕ) (p : services.Payload)
        → services.decode body ≡ some (t, n, p)
        → recognized t ≡ false
        → r ≡ (ack, c)
        → Handled body c r
    dropped :
        (t : String) (n : ℕ) (p : services.Payload)
        → services.decode body ≡ some (t, n, p)
        → recognized t ≡ true
        → well_formed (recorded services) t p ≡ false
        → r ≡ (nack, c)
        → Handled body c r
    fanned_out :
        (t : String) (n : ℕ) (p : services.Payload) (m : Notification) (sent : Bool)
        → services.decode body ≡ some (t, n, p)
        → Announces (recorded services) t p c m
        → m.occurred_at ≡ n
        → r.0 ≡ (if sent then ack else nack)
        → notifications r.1 ≡ (m, sent) ∷ notifications c
        → Handled body c r

  -- A delivery that is no envelope is refused; one of an unknown event type is acknowledged; one
  -- whose payload does not decode or names no gallery is refused, and none of these changes the
  -- consumer or calls a service. Any other delivery publishes exactly one notification, of the
  -- event's time, with the gallery, the photo, its URL and uploader or the message of its payload,
  -- the texts of its kind, and the gallery's name, which is the closing's own, if
  -- it has one, and else the one remembered or, failing that, the gallery service's answer. The
  -- delivery is acknowledged just if publishing succeeds.
  pub handle-Announced :
      (body : services.Body) (c : Recorded) → Handled body c (handle (recorded services) body c)
  handle-Announced body c =
      elim (handle-Handled (recorded services) (λ (w, l). l) (λ w. refl) (λ g w. refl) body c) [
        | Deliveries.malformed e q ↦ malformed e q
        | Deliveries.ignored t n p e u q ↦ ignored t n p e u q
        | Deliveries.dropped t n p e u bad q ↦ dropped t n p e u bad q
        | Deliveries.fanned_out t n p m c' e says kept timed q ↦
            let sent = (services.publish_notification m c'.world.0).0 in
            elim (Result-cases sent) [
              | inl (u, h) ↦
                  fanned_out t n p m true e says timed (ground (arith, q)) (ground (arith, q))
              | inr (x, h) ↦
                  fanned_out t n p m false e says timed (ground (arith, q)) (ground (arith, q))
            ]
      ]
