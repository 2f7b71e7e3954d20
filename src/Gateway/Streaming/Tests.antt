-- ===== src/Gateway/Streaming/Tests.antt =====
-- Two notifications, then the service closes the stream with an error.
use progetto_sdcc.Prelude.{String, some, ok, plain, false, internal}
use progetto_sdcc.Consumer.{Notification, gallery_closed}
use progetto_sdcc.Gateway.Http.{Web}
use progetto_sdcc.Gateway.Streaming.{Feed, received, failed, Encoders, NotificationDto}

abbrev web : Web
web = record {
  from_error = λ e. some (internal, "unavailable");
  http_status = λ code. 500;
  text = λ e. "an error";
}

abbrev json : NotificationDto → String
json d = d.message

abbrev encoders : Encoders
encoders = record { format_time = λ t. "now"; marshal = λ d. ok (json d) }

abbrev said : String → Notification
said text = record {
  id = "1";
  notification_type = gallery_closed;
  gallery_id = "7";
  gallery_name = "sea";
  photo_id = "";
  uploader_id = "";
  photo_url = "";
  message = text;
  occurred_at = 1000;
}

abbrev feed : Feed
feed = received (said "hello") (received (said "closed") (failed (plain "reset") false))
