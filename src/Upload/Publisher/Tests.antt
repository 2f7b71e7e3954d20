-- ===== src/Upload/Publisher/Tests.antt =====
-- A broker that answers every call, and a publisher that was started while there was none.
use progetto_sdcc.Prelude.{ℕ, suc, ◌≡◌, refl, true, false, none, [], ◌∷◌, ok, plain}
use progetto_sdcc.CircuitBreaker.{CircuitBreaker, state_closed, admit}
use progetto_sdcc.Upload.Record.{UploadEvent}
use progetto_sdcc.Upload.Publisher.{Broker, Publisher, publish, new_publisher}
use progetto_sdcc.Upload.Publisher.Deadlock.{
  Outcome, publish-Outcome, serve_all, state_of, never_recovers,
}
use progetto_sdcc.Upload.Publisher.Connections.{counted, Balanced, no_entries, publisher-Balanced}

-- The world is the number of the calls made.
abbrev broker : Broker
broker = record {
  World = ℕ;
  Payload = ℕ;
  Body = ℕ;
  dial = λ w. (ok w, suc w);
  open_channel = λ c w. (ok w, suc w);
  declare_exchange = λ ch w. (ok tt, suc w);
  close_channel = λ ch w. (ok tt, suc w);
  close_connection = λ c w. (ok tt, suc w);
  publish_message = λ ch key body w. (ok tt, suc w);
  marshal_event = λ e. ok e.photo_id;
  marshal_envelope = λ t now payload. ok payload;
  now = λ w. w;
}

abbrev closed_breaker : CircuitBreaker
closed_breaker = record {
  current = state_closed;
  consecutive_failures = 0;
  last_failure = 0;
  probing = false;
  max_failures = 3;
  reset_timeout = 30;
}

abbrev unconnected : Publisher broker
unconnected = record {
  locked = false;
  conn = none;
  channel = none;
  breaker = closed_breaker;
  world = 10;
}

abbrev event : UploadEvent
event = record {
  photo_id = 3;
  gallery_id = 7;
  uploader_id = 5;
  gallery_name = "";
  storage_key = "";
  photo_url = "";
  content_type = "image/jpeg";
  size_bytes = 3;
  member_ids = [];
  uploaded_at = 1;
}

publish-Outcome_example :
    Outcome broker "gallery.photo_uploaded" 3 unconnected
      (publish broker "gallery.photo_uploaded" 3 unconnected)
publish-Outcome_example = publish-Outcome broker "gallery.photo_uploaded" 3 unconnected refl

-- Three calls for the new connection, and none for the second event.
never_recovers_example :
    ((serve_all broker (event ∷ event ∷ []) unconnected).locked ≡ true)
    × ((serve_all broker (event ∷ event ∷ []) unconnected).world ≡ 13)
unfolding admit
never_recovers_example =
    never_recovers broker event (event ∷ []) unconnected 3 3 (plain "channel is nil") (10, 11) refl
      refl refl refl refl refl

publisher-Balanced_example : Balanced broker (
    serve_all
      (counted broker)
      (event ∷ event ∷ [])
      (state_of (counted broker) (new_publisher (counted broker) 3 30 (10, no_entries broker))))
publisher-Balanced_example = publisher-Balanced broker 3 30 10 (event ∷ event ∷ [])
