-- ===== src/Broadcaster/Cluster.antt =====
-- From a delivery of the queue to the connections of all replicas.
use text.Mathlib.Text.{◌==◌ as str_eq}
use progetto_sdcc.Prelude.{
  is_ok, Result-cases, inl, inr, ℕ, ◌≡◌, ◌≢◌, refl, sym, ◌∙◌, ap, String, true, false, Option, some,
  List, [], ◌∷◌, Error, ok, if◌then◌else◌, subst, ◌==◌,
}
use progetto_sdcc.Prelude.Dict.{Dict}
use progetto_sdcc.Registry.{Registry, notify, deliver, targets}
use progetto_sdcc.Registry.Wellformed.{Inv}
use progetto_sdcc.Registry.Delivery.{Delivered}
use progetto_sdcc.Registry.Interleaving.{notify-Delivered}
use progetto_sdcc.Consumer.{
  PhotoUploadedPayload, photo_uploaded, ack, nack, Notification, Services, Consumer, Verdict,
  published, handle,
}
use progetto_sdcc.Consumer.Deliveries.{
  recognized, Announces, of_photo, of_alert, of_closing, malformed, ignored, dropped, fanned_out,
  handle-Handled, well_formed,
}
use progetto_sdcc.Broadcaster.{Codec, publish_notification, apply, Replica, apply_all}

-- What the encodings promise: they do not fail, and what was encoded is decoded.
pub record RoundTrips (codec : Codec) : Type 0 where
  pub notification :
      (n : Notification)
      → (bytes : codec.Bytes) × (codec.marshal_notification n ≡ ok bytes)
        × (codec.unmarshal_notification bytes ≡ some n)
  pub envelope :
      (kind : String) (bytes : codec.Bytes)
      → (m : codec.Message) × (codec.marshal_envelope kind bytes ≡ ok m)
        × (codec.unmarshal_envelope m ≡ some (kind, bytes))

module _ (codec : Codec) where
  abbrev pub AllInv : List (Replica codec) → Type 0
  AllInv [] = Unit
  AllInv (r ∷ rs) = Inv r.registry × AllInv rs

  -- On each replica the notification was delivered to the connections that follow the gallery.
  abbrev pub AllDelivered :
      Notification → ℕ → List (Replica codec) → List (Registry × Dict (Option Error)) → Type 0
  AllDelivered n g [] [] = Unit
  AllDelivered n g (r ∷ rs) (x ∷ xs) =
      Delivered r.send n g r.registry r.registry x × AllDelivered n g rs xs
  AllDelivered n g _ _ = ⊥

  apply-notify :
      (send : ℕ → Notification → Option Error) (n : Notification) (g : ℕ) (bytes : codec.Bytes)
      (m : codec.Message) (r : Registry)
      → codec.unmarshal_envelope m ≡ some ("notify", bytes)
      → codec.unmarshal_notification bytes ≡ some n
      → codec.parse_uuid n.gallery_id ≡ some g
      → apply codec send m r ≡ deliver send n (targets g r) r
  unfolding apply notify
  apply-notify send n g bytes m r e f h = rw (e, f, h, apply) refl

  apply_all-Delivered :
      (n : Notification) (g : ℕ) (bytes : codec.Bytes) (m : codec.Message)
      (rs : List (Replica codec))
      → codec.unmarshal_envelope m ≡ some ("notify", bytes)
      → codec.unmarshal_notification bytes ≡ some n
      → codec.parse_uuid n.gallery_id ≡ some g
      → AllInv rs
      → AllDelivered n g rs (apply_all codec m rs)
  apply_all-Delivered n g bytes m [] e f h v = tt
  apply_all-Delivered n g bytes m (r ∷ rs) e f h v = (
    rw (apply-notify r.send n g bytes m r.registry e f h)
        (notify-Delivered r.send n g r.registry [] v.0 tt),
    apply_all-Delivered n g bytes m rs e f h v.1,
  )

  publish_notification-message :
      (n : Notification) (bytes : codec.Bytes) (m : codec.Message) (w : codec.World)
      → codec.marshal_notification n ≡ ok bytes
      → codec.marshal_envelope "notify" bytes ≡ ok m
      → publish_notification codec n w ≡ codec.publish_message m w
  unfolding publish_notification
  publish_notification-message n bytes m w e f = rw (e, f) refl

-- The consumer's services, with the broadcaster to publish notifications.
abbrev pub with_broadcaster : Services → Codec → Services
with_broadcaster services codec = record {
  Body = services.Body;
  Payload = services.Payload;
  World = services.World × codec.World;
  decode = services.decode;
  decode_photo = services.decode_photo;
  decode_alert = services.decode_alert;
  decode_closed = services.decode_closed;
  get_gallery = λ g w. ((services.get_gallery g w.0).0, ((services.get_gallery g w.0).1, w.1));
  publish_notification =
      λ n w. ((publish_notification codec n w.1).0, (w.0, (publish_notification codec n w.1).1));
  new_uuid = λ w. ((services.new_uuid w.0).0, ((services.new_uuid w.0).1, w.1));
  uuid_string = services.uuid_string;
}

module _ (services : Services) (codec : Codec) (laws : RoundTrips codec) where
  abbrev all : Services
  all = with_broadcaster services codec

  false≢true : false ≢ true
  false≢true e = cc

  -- What becomes of a photo's event: a notification of it, in one message, which is published, and
  -- nothing else is; the delivery is acknowledged just if that succeeds, and the replicas deliver it.
  pub data Reached (p : PhotoUploadedPayload) (replicas : List (Replica codec)) (c : Consumer all)
      (r : Verdict × Consumer all) : Type 0 where
    reached :
        (n : Notification) (m : codec.Message)
        → n.notification_type ≡ photo_uploaded
        → n.photo_id ≡ p.photo_id
        → n.photo_url ≡ p.photo_url
        → n.gallery_id ≡ services.uuid_string p.gallery_id
        → r.0 ≡ (if is_ok (codec.publish_message m c.world.1).0 then ack else nack)
        → (r.1).world.1 ≡ (codec.publish_message m c.world.1).1
        → AllDelivered codec n p.gallery_id replicas (apply_all codec m replicas)
        → Reached p replicas c r

  published-verdict :
      (n : Notification) (m : codec.Message) (bytes : codec.Bytes) (c : Consumer all)
      → codec.marshal_notification n ≡ ok bytes
      → codec.marshal_envelope "notify" bytes ≡ ok m
      → let r = published all (all.publish_notification n c.world) c in
        let x = codec.publish_message m c.world.1 in
        (r.0 ≡ (if is_ok x.0 then ack else nack)) × ((r.1).world.1 ≡ x.1)
  published-verdict n m bytes c e f =
      rw (publish_notification-message codec n bytes m c.world.1 e f)
        (elim (Result-cases (codec.publish_message m c.world.1).0) [
          | inl (u, q) ↦ (rw q refl, rw q refl)
          | inr (x, q) ↦ (rw q refl, rw q refl)
        ])

  Announces-photo :
      (t : String) (payload : services.Payload) (p : PhotoUploadedPayload) (c : Consumer all)
      (n : Notification)
      → t ≡ "PhotoUploaded"
      → services.decode_photo payload ≡ ok p
      → Announces all t payload c n
      → (n.notification_type ≡ photo_uploaded)
        × (n.photo_id ≡ p.photo_id)
        × (n.photo_url ≡ p.photo_url)
        × (n.gallery_id ≡ services.uuid_string p.gallery_id)
  Announces-photo t payload p c n e d (of_photo p' h d' k z g i u up says drawn named) =
      let same : p' ≡ p = cc in
      (
        k,
        i ∙ ap (λ x. x.photo_id) same,
        u ∙ ap (λ x. x.photo_url) same,
        g ∙ ap (λ x. services.uuid_string x.gallery_id) same,
      )
  Announces-photo t payload p c n e d (of_alert p' h d' k z g i rest drawn named) =
      absurd (false≢true (subst (λ x. str_eq x "ModeratorAlert" ≡ true) e h))
  Announces-photo t payload p c n e d (of_closing p' h d' k z g says rest named) =
      absurd (false≢true (subst (λ x. str_eq x "GalleryClosed" ≡ true) e h))

  well_formed-photo :
      (t : String) (payload : services.Payload) (p : PhotoUploadedPayload)
      → t ≡ "PhotoUploaded"
      → services.decode_photo payload ≡ ok p
      → (p.gallery_id == 0) ≡ false
      → well_formed all t payload ≡ true
  well_formed-photo t payload p e d z = rw (e, d, z) refl

  -- The event of a photo of a gallery, delivered to the consumer, becomes one notification, with the
  -- photo's id and URL and the gallery's id, that is published in one message, and nothing else is
  -- published. The delivery is acknowledged just if publishing the message succeeds. On each replica that gets the message, it
  -- is delivered to the connections that follow the gallery. This needs encodings that
  -- round-trip, a gallery id that is not nil, and registries that are well-formed.
  pub photo-Reached :
      (body : services.Body) (at_time : ℕ) (payload : services.Payload) (p : PhotoUploadedPayload)
      (c : Consumer all) (replicas : List (Replica codec))
      → services.decode body ≡ some ("PhotoUploaded", at_time, payload)
      → services.decode_photo payload ≡ ok p
      → (p.gallery_id == 0) ≡ false
      → codec.parse_uuid (services.uuid_string p.gallery_id) ≡ some p.gallery_id
      → AllInv codec replicas
      → Reached p replicas c (handle all body c)
  photo-Reached body at_time payload p c replicas e d z parses v =
      elim (handle-Handled all (λ w. w.1) (λ w. refl) (λ g w. refl) body c) [
        | malformed undecoded q ↦ absurd cc
        | ignored t n x e' u q ↦
            let same : t ≡ "PhotoUploaded" = cc in
            absurd (false≢true (sym (subst (λ y. recognized y ≡ false) same u)))
        | dropped t n x e' u bad q ↦
            let same : t ≡ "PhotoUploaded" = cc in
            let load : x ≡ payload = cc in
            absurd (false≢true (sym bad ∙ well_formed-photo t x p same (rw load d) z))
        | fanned_out t n x m c' e' says kept timed q ↦
            let same : t ≡ "PhotoUploaded" = cc in
            let load : x ≡ payload = cc in
            let (k, i, u, g) = Announces-photo t x p c m same (rw load d) says in
            let (bytes, marshalled, unmarshalled) = laws.notification m in
            let (message, sealed, opened) = laws.envelope "notify" bytes in
            let (answer, after) = published-verdict m message bytes c' marshalled sealed in
            let sends = λ (w : codec.World). codec.publish_message message w in
            reached m message k i u g
              (ap (λ r. r.0) q ∙ answer ∙ ap (λ w. if is_ok (sends w).0 then ack else nack) kept)
              (ap (λ r. (r.1).world.1) q ∙ after ∙ ap (λ w. (sends w).1) kept)
              (apply_all-Delivered codec m p.gallery_id bytes message replicas opened unmarshalled
                (rw g parses) v)
      ]
