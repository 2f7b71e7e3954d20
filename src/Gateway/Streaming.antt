-- ===== src/Gateway/Streaming.antt =====
-- internal/handlers/notification.go: the events that a browser gets. The stream of the notification
-- service, the JSON encoder and gin are parameters. A notification's time is always set, by the
-- consumer.
pub mod Forwarded
mod Tests
use progetto_sdcc.Prelude.{
  ℕ, String, Bool, true, false, not, ◌||◌, Option, none, some, List, [], ◌∷◌, Error, Result, ok,
  err, is_eof, is_empty, if◌then◌else◌,
}
use progetto_sdcc.Consumer.{
  Notification, NotificationType, photo_uploaded, moderator_alert, gallery_closed,
}
use progetto_sdcc.Gateway.Http.{Web, Response, error}

-- `notificationDTO`
pub record NotificationDto : Type 0 where
  pub id : String
  pub notification_type : String
  pub photo_id : String
  pub gallery_id : String
  pub gallery_name : String
  pub uploader_id : String
  pub message : String
  pub photo_url : String
  pub occurred_at : String

-- `NotificationType.String`
abbrev pub type_name : NotificationType → String
type_name photo_uploaded = "NOTIFICATION_TYPE_PHOTO_UPLOADED"
type_name moderator_alert = "NOTIFICATION_TYPE_MODERATOR_ALERT"
type_name gallery_closed = "NOTIFICATION_TYPE_GALLERY_CLOSED"

-- What the rounds of `c.Stream` meet: the browser is gone, or what `Recv` returns; of an error, whether
-- the context of the request is done by then.
pub data Feed : Type 0 where
  gone : Feed
  received : Notification → Feed → Feed
  failed : Error → (context_done : Bool) → Feed

-- A server-sent event: its name and its data.
pub record SseEvent : Type 0 where
  pub name : String
  pub data_text : String

pub record Encoders : Type 0 where
  pub format_time : ℕ → String
  -- `json.Marshal`
  pub marshal : NotificationDto → Result String

pub data Answer : Type 0 where
  refused : Response → Answer
  streamed : List SseEvent → Answer

abbrev pub dto : Encoders → Notification → NotificationDto
dto encoders n = record {
  id = n.id;
  notification_type = type_name n.notification_type;
  photo_id = n.photo_id;
  gallery_id = n.gallery_id;
  gallery_name = n.gallery_name;
  uploader_id = n.uploader_id;
  message = n.message;
  photo_url = n.photo_url;
  occurred_at = encoders.format_time n.occurred_at;
}

module _ (web : Web) (encoders : Encoders) where
  abbrev last_event : Error → Bool → List SseEvent
  last_event e context_done =
      if context_done || is_eof e
      then []
      else record { name = "error"; data_text = web.text e } ∷ []

  abbrev forward : Result String → List SseEvent → List SseEvent
  forward (err e) rest = []
  forward (ok body) rest = record { name = "notification"; data_text = body } ∷ rest

  -- The rounds of `c.Stream`.
  unfoldable pub stream_events : Feed → List SseEvent
  stream_events gone = []
  stream_events (received n rest) = forward (encoders.marshal (dto encoders n)) (stream_events rest)
  stream_events (failed e context_done) = last_event e context_done

  abbrev subscribed : Result Feed → Answer
  subscribed (err e) = refused (record { code = 502; body = error (web.text e) })
  subscribed (ok feed) = streamed (stream_events feed)

  -- `subscribe` is the call of the notification service with the header.
  unfoldable pub stream_handler : String → (String → Result Feed) → Answer
  stream_handler authorization subscribe =
      if is_empty authorization
      then refused (record { code = 401; body = error "missing Authorization header" })
      else subscribed (subscribe authorization)
