-- ===== src/Upload/Photo/Admission.antt =====
-- Whom an upload lets in: any services, with a record of the calls made of them.
use progetto_sdcc.Prelude.{
  ℕ, not, if◌then◌else◌, String, ◌≡◌, refl, Bool, true, false, Option, none, some, List, ◌∷◌, arith,
  Error, Result, ok, err, inl, inr, Result-cases, Bool-cases, status, invalid_argument, unavailable,
}
use progetto_sdcc.Auth.{Claims}
use progetto_sdcc.CircuitBreaker.{admit, call}
use progetto_sdcc.Upload.Record.{
  Record, UploadEvent, UploadPhotoResponse, GalleryStatus, IsMemberResponse,
}
use progetto_sdcc.Upload.Stream.{Incoming, receive_photo}
use progetto_sdcc.Upload.Photo.{
  Services, Settings, Server, Accepted, is_closed, is_member, member_error, ask, admit_upload,
}

-- A call of a service with its result.
pub data Effect : Type 0 where
  asked : String → String → Result IsMemberResponse → Effect
  put : String → String → List ℕ → Result String → Effect
  saved : Record → Effect
  listed : String → Effect
  published : UploadEvent → Effect
  responded : UploadPhotoResponse → Result (Unit {0}) → Effect

-- The services with a list of the calls made so far, newest first.
abbrev pub recorded : Services → Services
recorded services = record {
  World = services.World × List Effect;
  ask_member = λ g u (w, l). let r = services.ask_member g u w in (r.0, (r.1, asked g u r.0 ∷ l));
  list_members = λ g (w, l). let r = services.list_members g w in (r.0, (r.1, listed g ∷ l));
  put_object =
      λ k c b (w, l). let r = services.put_object k c b w in (r.0, (r.1, put k c b r.0 ∷ l));
  save = λ x (w, l). let r = services.save x w in (r.0, (r.1, saved x ∷ l));
  publish_photo = λ e (w, l). (services.publish_photo e w, published e ∷ l);
  send_and_close =
      λ x (w, l). let r = services.send_and_close x w in (r.0, (r.1, responded x r.0 ∷ l));
  now = λ (w, l). services.now w;
  new_uuid = λ (w, l). let r = services.new_uuid w in (r.0, (r.1, l));
  parse_uuid = services.parse_uuid;
  uuid_string = services.uuid_string;
}

abbrev pub allowed : IsMemberResponse → Bool
allowed r = if r.is_member then not (is_closed r.gallery_status) else false

abbrev pub permits : Result IsMemberResponse → Bool
permits (ok r) = allowed r
permits (err e) = false

abbrev pub denial : IsMemberResponse → Error
denial r =
    if r.is_member
    then status invalid_argument "gallery is closed"
    else status invalid_argument "user is not a member of the gallery"

module _ (services : Services) (settings : Settings) where
  abbrev pub Traced : Type 0
  Traced = Server (recorded services) settings

  abbrev pub events : Traced → List Effect
  events s = s.world.1

  abbrev pub unavailable_error : Error
  unavailable_error = status unavailable "gallery service unavailable (circuit breaker open)"

  -- What asking the gallery service through the breaker comes to.
  data Membership (g u : ℕ) (s : Traced) (r : Result (Bool × GalleryStatus) × Traced) : Type 0 where
    shut_off : r.0 ≡ err unavailable_error → events r.1 ≡ events s → Membership g u s r
    unanswered :
        (x : Error)
        → r.0 ≡ err (member_error x)
        → events r.1 ≡ asked (services.uuid_string g) (services.uuid_string u) (err x) ∷ events s
        → Membership g u s r
    answered :
        (a : IsMemberResponse)
        → r.0 ≡ ok (a.is_member, a.gallery_status)
        → events r.1 ≡ asked (services.uuid_string g) (services.uuid_string u) (ok a) ∷ events s
        → Membership g u s r

  is_member-Membership :
      (g u : ℕ) (s : Traced) → Membership g u s (is_member (recorded services) settings g u s)
  unfolding is_member ask call
  is_member-Membership g u s =
      let gs = services.uuid_string g in
      let us = services.uuid_string u in
      elim (Bool-cases (admit s.gallery_breaker (services.now s.world.0)).1) [
        | inr closed ↦ shut_off (ground arith) (ground arith)
        | inl opened ↦ elim (Result-cases (services.ask_member gs us s.world.0).0) [
          | inl (a, e) ↦ answered a (ground arith) (ground arith)
          | inr (x, e) ↦ unanswered x (ground arith) (ground arith)
        ]
      ]

  -- What is known of an upload that was let in.
  pub record IsAdmitted (claims : Option Claims) (stream : Incoming)
      (a : Accepted (recorded services) settings) : Type 0 where
    pub caller : Claims
    pub authentic : claims ≡ some caller
    pub received : receive_photo stream ≡ ok (a.meta, a.bytes)
    pub gallery : a.gallery ≡ (services.parse_uuid a.meta.gallery_id).0
    pub uploader : a.uploader ≡ caller.user_id

  -- What the first half comes to.
  pub data Admission (claims : Option Claims) (stream : Incoming) (s : Traced)
      (r : Result (Accepted (recorded services) settings) × Traced) : Type 0 where
    turned_back : (e : Error) → r.0 ≡ err e → events r.1 ≡ events s → Admission claims stream s r
    not_let_in :
        (e : Error) (g u : String) (x : Result IsMemberResponse)
        → r.0 ≡ err e
        → permits x ≡ false
        → events r.1 ≡ asked g u x ∷ events s
        → Admission claims stream s r
    let_in :
        (a : Accepted (recorded services) settings) (b : IsMemberResponse)
        → r.0 ≡ ok a
        → IsAdmitted claims stream a
        → allowed b ≡ true
        → events r.1
          ≡ asked (services.uuid_string a.gallery) (services.uuid_string a.uploader) (ok b)
            ∷ events s
        → Admission claims stream s r

  pub admit_upload-Admission :
      (claims : Option Claims) (stream : Incoming) (s : Traced)
      → Admission claims stream s (admit_upload (recorded services) settings claims stream s)
  unfolding admit_upload
  admit_upload-Admission none stream s = turned_back _ refl refl
  admit_upload-Admission (some c) stream s = elim (Result-cases (receive_photo stream)) [
    | inr (e, eq) ↦ turned_back e (ground arith) (ground arith)
    | inl ((m, b), eq) ↦
        let g = (services.parse_uuid m.gallery_id).0 in
        elim (is_member-Membership g c.user_id s) [
          | shut_off p q ↦ turned_back unavailable_error (ground arith) (ground arith)
          | unanswered x p q ↦
              not_let_in (member_error x) (services.uuid_string g) (services.uuid_string c.user_id)
                (err x) (ground arith) refl (ground arith)
          | answered a p q ↦ elim (Bool-cases (allowed a)) [
            | inl yes_in ↦
                let_in (record { meta = m; bytes = b; gallery = g; uploader = c.user_id }) a
                  (ground arith)
                  (record {
                    caller = c;
                    authentic = refl;
                    received = eq;
                    gallery = refl;
                    uploader = refl;
                  })
                  yes_in (ground arith)
            | inr refused ↦
                not_let_in (denial a) (services.uuid_string g) (services.uuid_string c.user_id)
                  (ok a) (ground arith) refused (ground arith)
          ]
        ]
  ]
