-- ===== src/Gateway/Streaming/Forwarded.antt =====
-- Which events the browser gets.
use progetto_sdcc.Prelude.{
  ◌≡◌, refl, ap, String, false, ◌||◌, Option, none, some, List, [], ◌∷◌, ◌++◌, map, Error, Result,
  ok, is_eof, is_empty, inl, inr, Bool-cases, if◌then◌else◌,
}
use progetto_sdcc.Consumer.{Notification}
use progetto_sdcc.Gateway.Http.{Web}
use progetto_sdcc.Gateway.Streaming.{
  Feed, gone, received, failed, SseEvent, Encoders, NotificationDto, streamed, dto, stream_events,
  stream_handler,
}

-- The notifications of a feed, and how it ends.
abbrev pub notifications : Feed → List Notification
notifications gone = []
notifications (received n rest) = n ∷ notifications rest
notifications (failed e context_done) = []

abbrev pub broken : Feed → Option Error
broken gone = none
broken (received n rest) = broken rest
broken (failed e context_done) = if context_done || is_eof e then none else some e

abbrev pub event : String → String → SseEvent
event name text = record { name = name; data_text = text }

abbrev pub error_events : Web → Option Error → List SseEvent
error_events web none = []
error_events web (some e) = event "error" (web.text e) ∷ []

module _ (web : Web) (encoders : Encoders) (json : NotificationDto → String)
    (encodes : (d : NotificationDto) → encoders.marshal d ≡ ok (json d)) where
  abbrev pub notification_event : Notification → SseEvent
  notification_event n = event "notification" (json (dto encoders n))

  stream_events-all :
      (feed : Feed)
      → stream_events web encoders feed
        ≡ map notification_event (notifications feed) ++ error_events web (broken feed)
  unfolding stream_events
  stream_events-all gone = refl
  stream_events-all (received n rest) =
      rw (encodes (dto encoders n))
        (ap (λ (l : List SseEvent). notification_event n ∷ l) (stream_events-all rest))
  stream_events-all (failed e context_done) = elim (Bool-cases (context_done || is_eof e)) [
    | inl h ↦ rw h refl
    | inr h ↦ rw h refl
  ]

  -- If notifications can be encoded, a browser with an authorization header gets, of a stream that
  -- the notification service opens, one event for each notification, in order and none left out,
  -- until it is gone or the stream fails; then one error event, unless the service closed the
  -- stream or the request's context is done.
  pub stream_handler-all :
      (authorization : String) (subscribe : String → Result Feed) (feed : Feed)
      → is_empty authorization ≡ false
      → subscribe authorization ≡ ok feed
      → stream_handler web encoders authorization subscribe
        ≡ streamed (map notification_event (notifications feed) ++ error_events web (broken feed))
  unfolding stream_handler
  stream_handler-all authorization subscribe feed h e =
      rw (h, e) (ap streamed (stream_events-all feed))
