-- ===== src/Consumer.antt =====
-- internal/notification/consumer.go: events of the queue become notifications. The JSON decoder, the
-- gallery service's client, the broadcaster and the UUID library are a parameter.
pub mod Deliveries
pub mod Announced
pub mod Names
mod Tests
use text.Mathlib.Text.{◌==◌ as str_eq}
use progetto_sdcc.Prelude.{
  ℕ, String, Bool, true, false, not, Option, none, some, List, [], ◌∷◌, Error, plain, wrapped,
  Result, ok, err, is_empty, ◌==◌, if◌then◌else◌,
}
use progetto_sdcc.Prelude.Action.{Action, and_then, ◌>>=◌, ◌>>◌, pure, lift, require, or_fail}
use progetto_sdcc.Prelude.Dict.{Dict, lookup, insert}

pub record PhotoUploadedPayload : Type 0 where
  pub photo_id : String
  pub gallery_id : ℕ
  pub uploader_id : ℕ
  pub gallery_name : String
  pub photo_url : String

pub record ModeratorAlertPayload : Type 0 where
  pub gallery_id : ℕ
  pub gallery_name : String
  pub message : String

pub record GalleryClosedPayload : Type 0 where
  pub gallery_id : ℕ
  pub gallery_name : String

pub data NotificationType : Type 0 where
  photo_uploaded moderator_alert gallery_closed : NotificationType

-- `notificationpb.Notification`; a text that is not set is empty.
pub record Notification : Type 0 where
  pub id : String
  pub notification_type : NotificationType
  pub gallery_id : String
  pub gallery_name : String
  pub photo_id : String
  pub uploader_id : String
  pub photo_url : String
  pub message : String
  pub occurred_at : ℕ

pub record Services : Type 1 where
  pub Body : Type 0
  pub Payload : Type 0
  pub World : Type 0
  -- `json.Unmarshal` into an envelope (event type, time stamp, payload) and into the payloads
  pub decode : Body → Option (String × ℕ × Payload)
  pub decode_photo : Payload → Result PhotoUploadedPayload
  pub decode_alert : Payload → Result ModeratorAlertPayload
  pub decode_closed : Payload → Result GalleryClosedPayload
  -- `GalleryService.GetGallery`: the name in its answer
  pub get_gallery : String → World → Result String × World
  -- `notifier.PublishNotification`
  pub publish_notification : Notification → World → Result (Unit {0}) × World
  pub new_uuid : World → ℕ × World
  -- `UUID.String`
  pub uuid_string : ℕ → String

-- How a delivery is answered; a negative answer does not requeue it.
pub data Verdict : Type 0 where
  ack nack : Verdict

module _ (services : Services) where
  pub record Consumer : Type 0 where
    pub gallery_names : Dict String
    pub world : services.World

  abbrev remember : ℕ → Result String × services.World → Dict String → Result String × Consumer
  remember g (ok name, w) names =
      (ok name, record { gallery_names = insert g name names; world = w })
  remember g (err e, w) names = (ok "", record { gallery_names = names; world = w })

  -- `galleryName`: from the map, or from the gallery service, whose failure yields no name.
  unfoldable pub gallery_name : ℕ → Action Consumer String
  gallery_name g c = elim (lookup g c.gallery_names) [
    | some name ↦ (ok name, c)
    | none ↦ remember g (services.get_gallery (services.uuid_string g) c.world) c.gallery_names
  ]

  abbrev fresh_uuid : Action Consumer ℕ
  fresh_uuid c =
      (ok (services.new_uuid c.world).0, record c { world = (services.new_uuid c.world).1 })

  unfoldable pub build_photo : ℕ → services.Payload → Action Consumer (Option Notification)
  build_photo timestamp payload = do
    p ← or_fail (wrapped "unmarshal PhotoUploaded payload") (lift (services.decode_photo payload))
    require (not (p.gallery_id == 0)) (plain "PhotoUploaded payload missing gallery_id")
    id ← fresh_uuid
    name ← gallery_name p.gallery_id
    pure (
        some (record {
          id = services.uuid_string id;
          notification_type = photo_uploaded;
          gallery_id = services.uuid_string p.gallery_id;
          gallery_name = name;
          photo_id = p.photo_id;
          uploader_id = services.uuid_string p.uploader_id;
          photo_url = p.photo_url;
          message = "A new photo was uploaded ";
          occurred_at = timestamp;
        }))

  unfoldable pub build_alert : ℕ → services.Payload → Action Consumer (Option Notification)
  build_alert timestamp payload = do
    p ← or_fail (wrapped "unmarshal ModeratorAlert payload") (lift (services.decode_alert payload))
    require (not (p.gallery_id == 0)) (plain "ModeratorAlert payload missing gallery_id")
    id ← fresh_uuid
    name ← gallery_name p.gallery_id
    pure (
        some (record {
          id = services.uuid_string id;
          notification_type = moderator_alert;
          gallery_id = services.uuid_string p.gallery_id;
          gallery_name = name;
          photo_id = "";
          uploader_id = "";
          photo_url = "";
          message = p.message;
          occurred_at = timestamp;
        }))

  -- The name in the event, if there is one.
  abbrev name_or : ℕ → String → Action Consumer String
  name_or g name c = if is_empty name then gallery_name g c else (ok name, c)

  unfoldable pub build_closed : ℕ → services.Payload → Action Consumer (Option Notification)
  build_closed timestamp payload = do
    p ← or_fail (wrapped "unmarshal GalleryClosed payload") (lift (services.decode_closed payload))
    require (not (p.gallery_id == 0)) (plain "GalleryClosed payload missing gallery_id")
    name ← name_or p.gallery_id p.gallery_name
    id ← fresh_uuid
    pure (
        some (record {
          id = services.uuid_string id;
          notification_type = gallery_closed;
          gallery_id = services.uuid_string p.gallery_id;
          gallery_name = name;
          photo_id = "";
          uploader_id = "";
          photo_url = "";
          message = "This gallery has been closed by its moderator.";
          occurred_at = timestamp;
        }))

  -- `buildNotification`: no notification for an event type that is not recognized.
  unfoldable pub build_notification :
      String → ℕ → services.Payload → Action Consumer (Option Notification)
  build_notification event_type timestamp payload c =
      if str_eq event_type "PhotoUploaded"
      then build_photo timestamp payload c
      else if str_eq event_type "ModeratorAlert"
      then build_alert timestamp payload c
      else if str_eq event_type "GalleryClosed"
      then build_closed timestamp payload c
      else (ok none, c)

  abbrev pub published : Result (Unit {0}) × services.World → Consumer → Verdict × Consumer
  published (ok u, w) c = (ack, record c { world = w })
  published (err e, w) c = (nack, record c { world = w })

  abbrev pub fan_out : Result (Option Notification) × Consumer → Verdict × Consumer
  fan_out (err e, c) = (nack, c)
  fan_out (ok none, c) = (ack, c)
  fan_out (ok (some n), c) = published (services.publish_notification n c.world) c

  unfoldable pub handle : services.Body → Consumer → Verdict × Consumer
  handle body c = elim (services.decode body) [
    | none ↦ (nack, c)
    | some (event_type, timestamp, payload) ↦
        fan_out (build_notification event_type timestamp payload c)
  ]

  -- `Consume` until the channel is closed or the context done: the answers, in the order of the
  -- deliveries.
  unfoldable pub consume : List services.Body → Consumer → List Verdict × Consumer
  consume [] c = ([], c)
  consume (body ∷ rest) c =
      let (verdict, c') = handle body c in
      let (verdicts, last) = consume rest c' in (verdict ∷ verdicts, last)
