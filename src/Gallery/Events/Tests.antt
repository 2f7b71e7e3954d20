-- ===== src/Gallery/Events/Tests.antt =====
-- A broker whose bodies are the event type, the time and the event.
use progetto_sdcc.Prelude.{
  ℕ, suc, refl, subst, String, true, some, [], List, ◌∷◌, Result, ok, err, plain, ◌≡◌,
}
use progetto_sdcc.Gallery.Command.{Event, gallery_closed_event, moderator_alert}
use progetto_sdcc.Gallery.Events.{Broker, event_type, RabbitMqPublisher}
use progetto_sdcc.Gallery.Events.Delivered.{Decodes, Topics, Carried, Travelled, publish-Travelled}
use progetto_sdcc.Consumer.{GalleryClosedPayload, ModeratorAlertPayload, Services, Consumer}

abbrev broker : Broker
broker = record {
  World = List (String × ℕ × Event);
  Payload = Event;
  Body = String × ℕ × Event;
  dial = λ w. (ok 1, w);
  open_channel = λ c w. (ok 2, w);
  declare_exchange = λ ch w. (ok tt, w);
  close_channel = λ ch w. (ok tt, w);
  close_connection = λ c w. (ok tt, w);
  publish_message = λ ch key body w. (ok tt, body ∷ w);
  marshal_payload = λ e. ok e;
  marshal_envelope = λ t time e. ok (t, time, e);
  now = λ w. 1000;
}

abbrev closing_of : Event → Result GalleryClosedPayload
closing_of (gallery_closed_event g name) = ok (record { gallery_id = g; gallery_name = name })
closing_of (moderator_alert g name message) = err (plain "no closing")

abbrev alert_of : Event → Result ModeratorAlertPayload
alert_of (gallery_closed_event g name) = err (plain "no alert")
alert_of (moderator_alert g name message) =
    ok (record { gallery_id = g; gallery_name = name; message = message })

abbrev services : Services
services = record {
  Body = String × ℕ × Event;
  Payload = Event;
  World = ℕ;
  decode = λ body. some body;
  decode_photo = λ e. err (plain "no photo");
  decode_alert = alert_of;
  decode_closed = closing_of;
  get_gallery = λ g w. (ok "sea", w);
  publish_notification = λ n w. (ok tt, w);
  new_uuid = λ w. (w, suc w);
  uuid_string = λ n. "gallery";
}

decodes : (e : Event) → Decodes broker services (λ body. body) e e
decodes (gallery_closed_event g name) = refl
decodes (moderator_alert g name message) = refl

ok-injective : {A : Type 0} {a b : A} → ok a ≡ ok b → a ≡ b
ok-injective e = cc

carried : Carried broker services (λ body. body)
carried = record {
  marshalled = λ e. (e, refl);
  sealed = λ e payload t q. (
    (event_type e, t, payload),
    payload,
    refl,
    refl,
    subst (λ x. Decodes broker services (λ body. body) e x) (ok-injective q) (decodes e),
  );
}

-- Any key matches.
abbrev topics : Topics
topics = record { matches = λ pattern key. true; all_words = λ rest. refl }

abbrev publisher : RabbitMqPublisher
publisher = record { conn = 1; channel = 2 }

abbrev consumer : Consumer services
consumer = record { gallery_names = []; world = 100 }

publish-Travelled_example :
    Travelled broker services
      (λ body. body)
      topics
      (moderator_alert 7 "sea" "hello")
      publisher
      []
      consumer
publish-Travelled_example =
    publish-Travelled broker services (λ body. body) topics carried
      (moderator_alert 7 "sea" "hello") publisher [] consumer refl
