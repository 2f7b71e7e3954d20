-- ===== src/Consumer/Tests.antt =====
-- A decoder of numbers: the body 1 is the upload of a photo to gallery 7, any other body is malformed.
use progetto_sdcc.Prelude.{
  ℕ, suc, ◌≡◌, String, none, some, [], ◌∷◌, length, Result, ok, err, plain, ◌==◌, if◌then◌else◌,
}
use progetto_sdcc.Prelude.Dict.{lookup}
use progetto_sdcc.Consumer.{Services, Consumer, handle, consume, gallery_name}
use progetto_sdcc.Consumer.Names.{Coherent, known, consume-Coherent}
use progetto_sdcc.Consumer.Announced.{recorded, Handled, handle-Announced}

abbrev services : Services
services = record {
  Body = ℕ;
  Payload = ℕ;
  World = ℕ;
  decode = λ body. if body == 1 then some ("PhotoUploaded", 1000, body) else none;
  decode_photo = λ p. ok (record {
    photo_id = "photo-3";
    gallery_id = 7;
    uploader_id = 5;
    gallery_name = "";
    photo_url = "http://localhost/photos/3";
  });
  decode_alert = λ p. err (plain "no alert");
  decode_closed = λ p. err (plain "no closing");
  get_gallery = λ g w. (ok "sea", w);
  publish_notification = λ n w. (ok tt, w);
  new_uuid = λ w. (w, suc w);
  uuid_string = λ n. if n == 7 then "gallery-7" else "other";
}

abbrev consumer : Consumer services
consumer = record { gallery_names = []; world = 100 }

abbrev watched : Consumer (recorded services)
watched = record { gallery_names = []; world = (100, []) }

handle-Announced_example : Handled services 1 watched (handle (recorded services) 1 watched)
handle-Announced_example = handle-Announced services 1 watched

answers_sea :
    (g : ℕ) (name : String) (w : ℕ) → ◌≡◌ {A = Result String} (ok "sea") (ok name) → name ≡ "sea"
answers_sea g name w e = cc

nothing_known : Coherent services (λ g. "sea") answers_sea consumer
unfolding lookup
nothing_known = record { right = λ g name e. cc }

consume-Coherent_example :
    let r = consume services (1 ∷ 2 ∷ []) consumer in
    (length r.0 ≡ length {A = ℕ} (1 ∷ 2 ∷ []))
    × Coherent services (λ g. "sea") answers_sea r.1
    × ((gallery_name services 7 r.1).0 ≡ ok (if known services 7 r.1 then "sea" else ""))
    × (lookup 7 ((gallery_name services 7 r.1).1).gallery_names
        ≡ (if known services 7 r.1 then some "sea" else none))
consume-Coherent_example =
    consume-Coherent services (λ g. "sea") answers_sea (1 ∷ 2 ∷ []) consumer 7 nothing_known
