-- ===== src/Broadcaster.antt =====
-- internal/notification/broadcast.go: how a notification reaches the registries of all replicas. Redis
-- and the encodings are a parameter.
pub mod Cluster
mod Tests
use text.Mathlib.Text.{◌==◌ as str_eq}
use progetto_sdcc.Prelude.{
  ℕ, String, Bool, true, false, Option, none, some, List, [], ◌∷◌, Error, wrapped, Result, ok, err,
  if◌then◌else◌,
}
use progetto_sdcc.Prelude.Dict.{Dict}
use progetto_sdcc.Consumer.{Notification}
use progetto_sdcc.Registry.{Registry, notify}

pub record Codec : Type 1 where
  pub Bytes : Type 0
  -- What travels over Redis.
  pub Message : Type 0
  pub World : Type 0
  -- `proto.Marshal` and `proto.Unmarshal`
  pub marshal_notification : Notification → Result Bytes
  pub unmarshal_notification : Bytes → Option Notification
  -- `json.Marshal` and `json.Unmarshal` of an envelope: kind and notification, the fields that are
  -- set. Decoding an envelope without a notification yields no bytes.
  pub marshal_envelope : String → Bytes → Result Message
  pub unmarshal_envelope : Message → Option (String × Bytes)
  -- `rdb.Publish` on the channel of the replicas
  pub publish_message : Message → World → Result (Unit {0}) × World
  -- `uuid.Parse`
  pub parse_uuid : String → Option ℕ

module _ (codec : Codec) where
  open codec use {Bytes, Message, World}

  abbrev send_message : Result Message → World → Result (Unit {0}) × World
  send_message (ok m) w = codec.publish_message m w
  send_message (err e) w = (err (wrapped "marshal envelope" e), w)

  -- `publish` of an envelope.
  abbrev publish : String → Bytes → World → Result (Unit {0}) × World
  publish kind bytes = send_message (codec.marshal_envelope kind bytes)

  abbrev publish_bytes : Result Bytes → World → Result (Unit {0}) × World
  publish_bytes (ok bytes) w = publish "notify" bytes w
  publish_bytes (err e) w = (err (wrapped "marshal notification" e), w)

  unfoldable pub publish_notification : Notification → World → Result (Unit {0}) × World
  publish_notification n = publish_bytes (codec.marshal_notification n)

  module _ (send : ℕ → Notification → Option Error) where
    abbrev notified : Notification → Option ℕ → Registry → Registry × Dict (Option Error)
    notified n none r = (r, [])
    notified n (some g) r = notify send n g r

    abbrev decoded : Option Notification → Registry → Registry × Dict (Option Error)
    decoded none r = (r, [])
    decoded (some n) r = notified n (codec.parse_uuid n.gallery_id) r

    abbrev by_kind : String → Bytes → Registry → Registry × Dict (Option Error)
    by_kind kind bytes r =
        if str_eq kind "notify" then decoded (codec.unmarshal_notification bytes) r else (r, [])

    -- The registry after a message, and the sends that were made.
    unfoldable pub apply : Message → Registry → Registry × Dict (Option Error)
    apply m r = elim (codec.unmarshal_envelope m) [
      | none ↦ (r, [])
      | some (kind, bytes) ↦ by_kind kind bytes r
    ]

    -- `Run` until the channel is closed or the context done.
    unfoldable pub run : List Message → Registry → Registry
    run [] r = r
    run (m ∷ ms) r = run ms (apply m r).0

  -- A replica: its registry, and what sending on a stream of it yields.
  pub record Replica : Type 0 where
    pub send : ℕ → Notification → Option Error
    pub registry : Registry

  -- Redis hands a message to every replica, each of which is in `Run`.
  abbrev pub apply_all : Message → List Replica → List (Registry × Dict (Option Error))
  apply_all m [] = []
  apply_all m (r ∷ rs) = apply r.send m r.registry ∷ apply_all m rs
