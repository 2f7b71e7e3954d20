-- ===== src/Consumer/Deliveries.antt =====
-- What becomes of a delivery.
use text.Mathlib.Text.{◌==◌ as str_eq}
use progetto_sdcc.Prelude.{
  ℕ, ◌≡◌, ◌≢◌, refl, ◌∙◌, is_ok, String, Bool, true, false, ◌||◌, Option, none, some, Result, ok,
  arith, is_empty, ◌==◌, inl, inr, Bool-cases, Option-cases, Result-cases, not, if◌then◌else◌, err,
}
use progetto_sdcc.Prelude.Dict.{Dict, lookup, insert}
use progetto_sdcc.Consumer.{
  PhotoUploadedPayload, ModeratorAlertPayload, GalleryClosedPayload, photo_uploaded,
  moderator_alert, gallery_closed, Notification, Services, Verdict, ack, nack, Consumer,
  gallery_name, build_photo, build_alert, build_closed, build_notification, published, handle,
}

abbrev pub recognized : String → Bool
recognized t = str_eq t "PhotoUploaded" || str_eq t "ModeratorAlert" || str_eq t "GalleryClosed"

module _ (services : Services) where
  abbrev or_none : Result String → String
  or_none (ok name) = name
  or_none (err e) = ""

  -- The name under which a gallery is known, or the one that the gallery service gives, if any.
  abbrev pub name_found : Dict String → ℕ → services.World → String
  name_found names g w = elim (lookup g names) [
    | some name ↦ name
    | none ↦ or_none (services.get_gallery (services.uuid_string g) w).0
  ]

  -- A notification says what the payload of its event says. The identifier and the name of the
  -- gallery are those found in the state in which the delivery arrives.
  pub data Announces (event_type : String) (payload : services.Payload) (c : Consumer services)
      (n : Notification) : Type 0 where
    of_photo :
        (p : PhotoUploadedPayload)
        → str_eq event_type "PhotoUploaded" ≡ true
        → services.decode_photo payload ≡ ok p
        → n.notification_type ≡ photo_uploaded
        → p.gallery_id ≢ 0
        → n.gallery_id ≡ services.uuid_string p.gallery_id
        → n.photo_id ≡ p.photo_id
        → n.photo_url ≡ p.photo_url
        → n.uploader_id ≡ services.uuid_string p.uploader_id
        → n.message ≡ "A new photo was uploaded "
        → n.id ≡ services.uuid_string (services.new_uuid c.world).0
        → n.gallery_name ≡ name_found c.gallery_names p.gallery_id (services.new_uuid c.world).1
        → Announces event_type payload c n
    of_alert :
        (p : ModeratorAlertPayload)
        → str_eq event_type "ModeratorAlert" ≡ true
        → services.decode_alert payload ≡ ok p
        → n.notification_type ≡ moderator_alert
        → p.gallery_id ≢ 0
        → n.gallery_id ≡ services.uuid_string p.gallery_id
        → n.message ≡ p.message
        → (n.photo_id ≡ "") × (n.photo_url ≡ "") × (n.uploader_id ≡ "")
        → n.id ≡ services.uuid_string (services.new_uuid c.world).0
        → n.gallery_name ≡ name_found c.gallery_names p.gallery_id (services.new_uuid c.world).1
        → Announces event_type payload c n
    of_closing :
        (p : GalleryClosedPayload)
        → str_eq event_type "GalleryClosed" ≡ true
        → services.decode_closed payload ≡ ok p
        → n.notification_type ≡ gallery_closed
        → p.gallery_id ≢ 0
        → n.gallery_id ≡ services.uuid_string p.gallery_id
        → n.message ≡ "This gallery has been closed by its moderator."
        → (n.photo_id ≡ "") × (n.photo_url ≡ "") × (n.uploader_id ≡ "")
        → n.gallery_name ≡ (
            if is_empty p.gallery_name
            then name_found c.gallery_names p.gallery_id c.world
            else p.gallery_name)
        → Announces event_type payload c n

  abbrev names_gallery : {A : Type 0} → (A → ℕ) → Result A → Bool
  names_gallery gallery (ok m) = not (gallery m == 0)
  names_gallery gallery (err e) = false

  -- Whether the payload of an event decodes and names a gallery.
  abbrev pub well_formed : String → services.Payload → Bool
  well_formed t p =
      if str_eq t "PhotoUploaded"
      then names_gallery (λ m. m.gallery_id) (services.decode_photo p)
      else if str_eq t "ModeratorAlert"
      then names_gallery (λ m. m.gallery_id) (services.decode_alert p)
      else names_gallery (λ m. m.gallery_id) (services.decode_closed p)

  -- A part of the world that drawing an identifier and asking for a gallery leave as it is.
  module _ {V : Type 0} (view : services.World → V)
      (drawing_keeps : (w : services.World) → view (services.new_uuid w).1 ≡ view w)
      (asking_keeps : (g : String) (w : services.World)
        → view (services.get_gallery g w).1 ≡ view w) where
    -- What building a notification comes to.
    data Built (t : String) (at_time : ℕ) (payload : services.Payload) (c : Consumer services)
        (r : Result (Option Notification) × Consumer services) : Type 0 where
      nothing : recognized t ≡ false → r ≡ (ok none, c) → Built t at_time payload c r
      refused :
          recognized t ≡ true
          → well_formed t payload ≡ false
          → is_ok r.0 ≡ false
          → r.1 ≡ c
          → Built t at_time payload c r
      built :
          (n : Notification)
          → r.0 ≡ ok (some n)
          → Announces t payload c n
          → n.occurred_at ≡ at_time
          → view (r.1).world ≡ view c.world
          → Built t at_time payload c r

    -- The name is always there, if empty.
    pub gallery_name-ok :
        (g : ℕ) (c : Consumer services)
        → (c' : Consumer services) × (gallery_name services g c
            ≡ (ok (name_found c.gallery_names g c.world), c'))
          × (view c'.world ≡ view c.world)
    unfolding gallery_name
    gallery_name-ok g c = elim (Option-cases (lookup g c.gallery_names)) [
      | inr (name, e) ↦ (c, ground arith, refl)
      | inl e ↦ elim (Result-cases (services.get_gallery (services.uuid_string g) c.world).0) [
        | inl (name, q) ↦ (
          record {
            gallery_names = insert g name c.gallery_names;
            world = (services.get_gallery (services.uuid_string g) c.world).1;
          },
          ground arith,
          asking_keeps (services.uuid_string g) c.world,
        )
        | inr (x, q) ↦ (
          record {
            gallery_names = c.gallery_names;
            world = (services.get_gallery (services.uuid_string g) c.world).1;
          },
          ground arith,
          asking_keeps (services.uuid_string g) c.world,
        )
      ]
    ]

    not_nil : (g : ℕ) → (g == 0) ≡ false → g ≢ 0
    not_nil g h e = ground arith

    build_photo-Built :
        (t : String) (n : ℕ) (p : services.Payload) (c : Consumer services)
        → str_eq t "PhotoUploaded" ≡ true
        → Built t n p c (build_photo services n p c)
    unfolding build_photo
    build_photo-Built t n p c h = elim (Result-cases (services.decode_photo p)) [
      | inr (e, q) ↦ refused (ground arith) (ground arith) (ground arith) (ground arith)
      | inl (m, q) ↦ elim (Bool-cases (m.gallery_id == 0)) [
        | inl z ↦ refused (ground arith) (ground arith) (ground arith) (ground arith)
        | inr z ↦
            let (c', named, kept) =
              gallery_name-ok m.gallery_id (record c { world = (services.new_uuid c.world).1 }) in
            rw (q, z, named)
              (built _ refl
                (of_photo m h q refl (not_nil m.gallery_id z) refl refl refl refl refl refl refl)
                refl (kept ∙ drawing_keeps c.world))
      ]
    ]

    build_alert-Built :
        (t : String) (n : ℕ) (p : services.Payload) (c : Consumer services)
        → str_eq t "PhotoUploaded" ≡ false
        → str_eq t "ModeratorAlert" ≡ true
        → Built t n p c (build_alert services n p c)
    unfolding build_alert
    build_alert-Built t n p c no_photo h = elim (Result-cases (services.decode_alert p)) [
      | inr (e, q) ↦ refused (ground arith) (ground arith) (ground arith) (ground arith)
      | inl (m, q) ↦ elim (Bool-cases (m.gallery_id == 0)) [
        | inl z ↦ refused (ground arith) (ground arith) (ground arith) (ground arith)
        | inr z ↦
            let (c', named, kept) =
              gallery_name-ok m.gallery_id (record c { world = (services.new_uuid c.world).1 }) in
            rw (q, z, named)
              (built _ refl
                (of_alert m h q refl (not_nil m.gallery_id z) refl refl (refl, refl, refl) refl
                  refl)
                refl (kept ∙ drawing_keeps c.world))
      ]
    ]

    build_closed-Built :
        (t : String) (n : ℕ) (p : services.Payload) (c : Consumer services)
        → str_eq t "PhotoUploaded" ≡ false
        → str_eq t "ModeratorAlert" ≡ false
        → str_eq t "GalleryClosed" ≡ true
        → Built t n p c (build_closed services n p c)
    unfolding build_closed
    build_closed-Built t n p c no_photo no_alert h =
        elim (Result-cases (services.decode_closed p)) [
          | inr (e, q) ↦ refused (ground arith) (ground arith) (ground arith) (ground arith)
          | inl (m, q) ↦ elim (Bool-cases (m.gallery_id == 0)) [
            | inl z ↦ refused (ground arith) (ground arith) (ground arith) (ground arith)
            | inr z ↦ elim (Bool-cases (is_empty m.gallery_name)) [
              | inr given ↦
                  rw (q, z, given)
                    (built _ refl
                      (of_closing m h q refl (not_nil m.gallery_id z) refl refl (refl, refl, refl)
                        (rw given refl))
                      refl (drawing_keeps c.world))
              | inl unnamed ↦
                  let (c', named, kept) = gallery_name-ok m.gallery_id c in
                  rw (q, z, unnamed, named)
                    (built _ refl
                      (of_closing m h q refl (not_nil m.gallery_id z) refl refl (refl, refl, refl)
                        (rw unnamed refl))
                      refl (drawing_keeps c'.world ∙ kept))
            ]
          ]
        ]

    build_notification-Built :
        (t : String) (n : ℕ) (p : services.Payload) (c : Consumer services)
        → Built t n p c (build_notification services t n p c)
    unfolding build_notification
    build_notification-Built t n p c = elim (Bool-cases (str_eq t "PhotoUploaded")) [
      | inl h ↦ rw h (build_photo-Built t n p c h)
      | inr h ↦ elim (Bool-cases (str_eq t "ModeratorAlert")) [
        | inl k ↦ rw (h, k) (build_alert-Built t n p c h k)
        | inr k ↦ elim (Bool-cases (str_eq t "GalleryClosed")) [
          | inl l ↦ rw (h, k, l) (build_closed-Built t n p c h k l)
          | inr l ↦ rw (h, k, l) (nothing (ground arith) refl)
        ]
      ]
    ]

    -- How a delivery ends.
    pub data Handled (body : services.Body) (c : Consumer services)
        (r : Verdict × Consumer services) : Type 0 where
      malformed : services.decode body ≡ none → r ≡ (nack, c) → Handled body c r
      ignored :
          (t : String) (n : ℕ) (p : services.Payload)
          → services.decode body ≡ some (t, n, p)
          → recognized t ≡ false
          → r ≡ (ack, c)
          → Handled body c r
      dropped :
          (t : String) (n : ℕ) (p : services.Payload)
          → services.decode body ≡ some (t, n, p)
          → recognized t ≡ true
          → well_formed t p ≡ false
          → r ≡ (nack, c)
          → Handled body c r
      fanned_out :
          (t : String) (n : ℕ) (p : services.Payload) (m : Notification) (c' : Consumer services)
          → services.decode body ≡ some (t, n, p)
          → Announces t p c m
          → view c'.world ≡ view c.world
          → m.occurred_at ≡ n
          → r ≡ published services (services.publish_notification m c'.world) c'
          → Handled body c r

    pub handle-Handled :
        (body : services.Body) (c : Consumer services) → Handled body c (handle services body c)
    unfolding handle
    handle-Handled body c = elim (Option-cases (services.decode body)) [
      | inl e ↦ malformed e (ground arith)
      | inr ((t, n, p), e) ↦
          let b = build_notification services t n p c in
          elim (build_notification-Built t n p c) [
            | nothing u q ↦ ignored t n p e u (ground arith)
            | refused u bad q same ↦ dropped t n p e u bad (elim (Result-cases b.0) [
              | inl (x, k) ↦ absurd (ground arith)
              | inr (x, k) ↦ ground arith
            ])
            | built m q says timed kept ↦ fanned_out t n p m b.1 e says kept timed (ground arith)
          ]
    ]
