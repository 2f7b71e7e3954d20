-- ===== src/Consumer/Names.antt =====
-- The consumer's map of gallery names.
use progetto_sdcc.Prelude.{
  Bool, true, is_ok, if◌then◌else◌, ℕ, ◌≡◌, refl, String, Option, none, some, List, [], ◌∷◌, arith,
  Result, ok, err, is_empty, ◌==◌, inl, inr, Bool-cases, Option-cases, Result-cases, length,
}
use progetto_sdcc.Prelude.Dict.{lookup, lookup-insert}
use text.Mathlib.Text.{◌==◌ as str_eq}
use progetto_sdcc.Consumer.Deliveries.{gallery_name-ok}
use progetto_sdcc.Consumer.{
  Notification, Services, Consumer, gallery_name, build_photo, build_alert, build_closed,
  build_notification, published, fan_out, handle, consume,
}

module _ (services : Services) where
  -- Whether the name of a gallery is in the map, or the gallery service gives it now.
  abbrev pub known : ℕ → Consumer services → Bool
  known g c = elim (lookup g c.gallery_names) [
    | some name ↦ true
    | none ↦ is_ok (services.get_gallery (services.uuid_string g) c.world).0
  ]

module _ (services : Services) (title : ℕ → String)
    (answers : (g : ℕ) (name : String) (w : services.World)
      → (services.get_gallery (services.uuid_string g) w).0 ≡ ok name
      → name ≡ title g) where
  -- Every name in the map is the gallery's title.
  pub record Coherent (c : Consumer services) : Type 0 where
    pub right : (g : ℕ) (name : String) → lookup g c.gallery_names ≡ some name → name ≡ title g

  gallery_name-Coherent :
      (g : ℕ) (c : Consumer services) → Coherent c → Coherent (gallery_name services g c).1
  unfolding gallery_name
  gallery_name-Coherent g c k = elim (Option-cases (lookup g c.gallery_names)) [
    | inr (name, e) ↦ rw (e, gallery_name) k
    | inl e ↦ elim (Result-cases (services.get_gallery (services.uuid_string g) c.world).0) [
      | inr (x, q) ↦ rw (e, q, gallery_name) (record { right = k.right })
      | inl (name, q) ↦
          rw (e, q, gallery_name)
            (record {
              right = λ h n f. ground (
                arith,
                lookup-insert h g name c.gallery_names,
                k.right h n,
                answers g name c.world q,
              );
            })
    ]
  ]

  fresh-Coherent :
      (c : Consumer services) (w : services.World) → Coherent c → Coherent (record c { world = w })
  fresh-Coherent c w k = record { right = k.right }

  build_photo-Coherent :
      (n : ℕ) (p : services.Payload) (c : Consumer services)
      → Coherent c
      → Coherent (build_photo services n p c).1
  unfolding build_photo
  build_photo-Coherent n p c k = elim (Result-cases (services.decode_photo p)) [
    | inr (e, q) ↦ rw q k
    | inl (m, q) ↦ elim (Bool-cases (m.gallery_id == 0)) [
      | inl z ↦ rw (q, z) k
      | inr z ↦
          let c' = record c { world = (services.new_uuid c.world).1 } in
          let (c'', named, same) =
            gallery_name-ok services (λ w. tt {0}) (λ w. refl) (λ h w. refl) m.gallery_id c' in
          let kept = gallery_name-Coherent m.gallery_id c' (fresh-Coherent c c'.world k) in
          rw (q, z, named) (rw named at kept)
    ]
  ]

  build_alert-Coherent :
      (n : ℕ) (p : services.Payload) (c : Consumer services)
      → Coherent c
      → Coherent (build_alert services n p c).1
  unfolding build_alert
  build_alert-Coherent n p c k = elim (Result-cases (services.decode_alert p)) [
    | inr (e, q) ↦ rw q k
    | inl (m, q) ↦ elim (Bool-cases (m.gallery_id == 0)) [
      | inl z ↦ rw (q, z) k
      | inr z ↦
          let c' = record c { world = (services.new_uuid c.world).1 } in
          let (c'', named, same) =
            gallery_name-ok services (λ w. tt {0}) (λ w. refl) (λ h w. refl) m.gallery_id c' in
          let kept = gallery_name-Coherent m.gallery_id c' (fresh-Coherent c c'.world k) in
          rw (q, z, named) (rw named at kept)
    ]
  ]

  build_closed-Coherent :
      (n : ℕ) (p : services.Payload) (c : Consumer services)
      → Coherent c
      → Coherent (build_closed services n p c).1
  unfolding build_closed
  build_closed-Coherent n p c k = elim (Result-cases (services.decode_closed p)) [
    | inr (e, q) ↦ rw q k
    | inl (m, q) ↦ elim (Bool-cases (m.gallery_id == 0)) [
      | inl z ↦ rw (q, z) k
      | inr z ↦ elim (Bool-cases (is_empty m.gallery_name)) [
        | inr given ↦ rw (q, z, given) (record { right = k.right })
        | inl unnamed ↦
            let (c', named, same) =
              gallery_name-ok services (λ w. tt {0}) (λ w. refl) (λ h w. refl) m.gallery_id c in
            let kept = gallery_name-Coherent m.gallery_id c k in
            rw (q, z, unnamed, named) (record { right = (rw named at kept).right })
      ]
    ]
  ]

  build_notification-Coherent :
      (t : String) (n : ℕ) (p : services.Payload) (c : Consumer services)
      → Coherent c
      → Coherent (build_notification services t n p c).1
  unfolding build_notification
  build_notification-Coherent t n p c k = elim (Bool-cases (str_eq t "PhotoUploaded")) [
    | inl h ↦ rw h (build_photo-Coherent n p c k)
    | inr h ↦ elim (Bool-cases (str_eq t "ModeratorAlert")) [
      | inl i ↦ rw (h, i) (build_alert-Coherent n p c k)
      | inr i ↦ elim (Bool-cases (str_eq t "GalleryClosed")) [
        | inl j ↦ rw (h, i, j) (build_closed-Coherent n p c k)
        | inr j ↦ rw (h, i, j) k
      ]
    ]
  ]

  published-Coherent :
      (r : Result (Unit {0}) × services.World) (c : Consumer services)
      → Coherent c
      → Coherent (published services r c).1
  published-Coherent (ok u, w) c k = fresh-Coherent c w k
  published-Coherent (err e, w) c k = fresh-Coherent c w k

  fan_out-Coherent :
      (r : Result (Option Notification) × Consumer services)
      → Coherent r.1
      → Coherent (fan_out services r).1
  fan_out-Coherent (err e, c) k = k
  fan_out-Coherent (ok none, c) k = k
  fan_out-Coherent (ok (some n), c) k =
      published-Coherent (services.publish_notification n c.world) c k

  handle-Coherent :
      (body : services.Body) (c : Consumer services)
      → Coherent c
      → Coherent (handle services body c).1
  unfolding handle
  handle-Coherent body c k = elim (Option-cases (services.decode body)) [
    | inl e ↦ rw (e, handle) k
    | inr ((t, n, p), e) ↦
        rw (e, handle)
          (fan_out-Coherent (build_notification services t n p c)
            (build_notification-Coherent t n p c k))
  ]

  gallery_name-title :
      (g : ℕ) (c : Consumer services)
      → Coherent c
      → let r = gallery_name services g c in
        (r.0 ≡ ok (if known services g c then title g else ""))
        × (lookup g (r.1).gallery_names ≡ (if known services g c then some (title g) else none))
  unfolding gallery_name
  gallery_name-title g c k = elim (Option-cases (lookup g c.gallery_names)) [
    | inr (name, e) ↦ (ground (arith, k.right g name e), ground (arith, k.right g name e))
    | inl e ↦ elim (Result-cases (services.get_gallery (services.uuid_string g) c.world).0) [
      | inr (x, q) ↦ (ground arith, ground arith)
      | inl (name, q) ↦ (
        ground (arith, answers g name c.world q),
        ground (arith, answers g name c.world q, lookup-insert g g name c.gallery_names),
      )
    ]
  ]

  -- If the gallery service only ever names a gallery by its title, then a consumer whose map holds
  -- titles answers as many deliveries as it is given and holds titles afterwards. The name that it
  -- then finds for a gallery is the title, and is in its map after that, if it is in its map already
  -- or the gallery service answers; otherwise, the service failing, it is empty and the map has none.
  pub consume-Coherent :
      (bodies : List services.Body) (c : Consumer services) (g : ℕ)
      → Coherent c
      → let r = consume services bodies c in
        (length r.0 ≡ length bodies)
        × Coherent r.1
        × ((gallery_name services g r.1).0 ≡ ok (if known services g r.1 then title g else ""))
        × (lookup g ((gallery_name services g r.1).1).gallery_names
            ≡ (if known services g r.1 then some (title g) else none))
  unfolding consume
  consume-Coherent [] c g k =
      let (name, cached) = gallery_name-title g c k in (refl, k, name, cached)
  consume-Coherent (body ∷ rest) c g k =
      let (count, last, name, cached) =
        consume-Coherent rest (handle services body c).1 g (handle-Coherent body c k) in
      (omega (arith, count), last, name, cached)
