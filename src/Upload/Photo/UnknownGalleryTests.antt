-- ===== src/Upload/Photo/UnknownGalleryTests.antt =====
-- A breaker with the limit 3 before the database that has the gallery 2 only. The world is the time,
-- and a call takes a second.
use progetto_sdcc.Prelude.{
  ℕ, suc, ◌≡◌, refl, true, false, [], Error, ok, err, status, unavailable, arith,
}
use progetto_sdcc.CircuitBreaker.{new_circuit_breaker}
use progetto_sdcc.Upload.Photo.{Services, Settings, is_member}
use progetto_sdcc.Upload.Photo.UnknownGallery.{linked, Linked, asks, unknown_gallery-opens}
use progetto_sdcc.Gallery.Database.MembershipTests.{
  small, small-WriteLaws, small-ReadLaws, small-absent,
}
use progetto_sdcc.Subscription.Strokes.{uuids, uuids-WritesUuids}

abbrev ticking : Services
ticking = record {
  World = ℕ;
  ask_member = λ g u w. (err (Error.plain "not linked"), w);
  list_members = λ g w. (ok [], w);
  put_object = λ k c b w. (ok "", w);
  save = λ x w. (ok tt, w);
  publish_photo = λ e w. w;
  send_and_close = λ x w. (ok tt, w);
  now = λ w. w;
  new_uuid = λ w. (1, suc w);
  parse_uuid = λ t. (0, false);
  uuid_string = uuids.text;
}

abbrev local : Settings
local = record { minio_public_url = ""; minio_bucket = "photos" }

abbrev Front : Type 0
Front = Linked uuids small ticking local (λ w. true) suc

abbrev fresh : Front
fresh = record { gallery_breaker = new_circuit_breaker 3 10; world = 100 }

abbrev after_three : Front
after_three = asks uuids small ticking local (λ w. true) suc 3 9 5 fresh

abbrev front : Services
front = linked uuids small ticking local (λ w. true) suc

unknown_gallery-opens_example :
    is_member front local 2 5 after_three
    ≡ (err (status unavailable "gallery service unavailable (circuit breaker open)"), after_three)
unknown_gallery-opens_example =
    unknown_gallery-opens uuids small ticking local (λ w. true) suc uuids-WritesUuids
      small-WriteLaws small-ReadLaws (λ w. refl) 10 9 5 2 2 5 100 (ground arith) small-absent
