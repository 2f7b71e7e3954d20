-- ===== src/Broadcaster/Tests.antt =====
-- Encodings that keep everything, and two replicas.
use progetto_sdcc.Prelude.{
  ℕ, suc, refl, String, Option, none, some, List, [], ◌∷◌, Error, ok, err, plain, ◌==◌,
  if◌then◌else◌,
}
use progetto_sdcc.Registry.{Registry, new}
use progetto_sdcc.Registry.Wellformed.{Inv, new-Inv}
use progetto_sdcc.Registry.Refinement.{Op, creates, subscribes, run, run-new}
use progetto_sdcc.Consumer.{Notification, PhotoUploadedPayload, Services, Consumer, handle}
use progetto_sdcc.Broadcaster.{Codec, Replica}
use progetto_sdcc.Broadcaster.Cluster.{RoundTrips, with_broadcaster, Reached, photo-Reached}

abbrev codec : Codec
codec = record {
  Bytes = Notification;
  Message = String × Notification;
  World = List (String × Notification);
  marshal_notification = λ n. ok n;
  unmarshal_notification = λ n. some n;
  marshal_envelope = λ kind n. ok (kind, n);
  unmarshal_envelope = λ m. some m;
  publish_message = λ m w. (ok tt, m ∷ w);
  parse_uuid = λ s. some 7;
}

codec_laws : RoundTrips codec
codec_laws = record {
  notification = λ n. (n, refl, refl);
  envelope = λ kind bytes. ((kind, bytes), refl, refl);
}

abbrev photo : PhotoUploadedPayload
photo = record {
  photo_id = "photo-3";
  gallery_id = 7;
  uploader_id = 5;
  gallery_name = "";
  photo_url = "http://localhost/photos/3";
}

abbrev services : Services
services = record {
  Body = ℕ;
  Payload = ℕ;
  World = ℕ;
  decode = λ body. some ("PhotoUploaded", 1000, body);
  decode_photo = λ p. ok photo;
  decode_alert = λ p. err (plain "no alert");
  decode_closed = λ p. err (plain "no closing");
  get_gallery = λ g w. (ok "sea", w);
  publish_notification = λ n w. (ok tt, w);
  new_uuid = λ w. (w, suc w);
  uuid_string = λ n. if n == 7 then "gallery-7" else "other";
}

abbrev consumer : Consumer (with_broadcaster services codec)
consumer = record { gallery_names = []; world = (100, []) }

-- Two replicas: connection 1 follows gallery 7 on the second, and nobody is on the first.
abbrev send : ℕ → Notification → Option Error
send stream n = none

abbrev history : List Op
history = creates 1 8 300 ∷ subscribes 1 7 ∷ []

abbrev followed : Registry
followed = run history new

followed-Inv : Inv followed
followed-Inv = (run-new history (refl, (tt, tt))).0

abbrev replicas : List (Replica codec)
replicas = record { send = send; registry = new } ∷ record { send = send; registry = followed } ∷ []

photo-Reached_example :
    Reached services codec codec_laws photo replicas consumer
      (handle (with_broadcaster services codec) 1 consumer)
photo-Reached_example =
    photo-Reached services codec codec_laws 1 1000 1 photo consumer replicas refl refl refl refl
      (new-Inv, (followed-Inv, tt))
