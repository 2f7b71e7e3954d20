-- ===== src/Upload/Photo/Trace.antt =====
-- The effects of an upload, in their order.
use progetto_sdcc.Prelude.{
  ℕ, String, ◌≡◌, true, false, Option, List, ◌∷◌, arith, Error, Result, ok, err, inl, inr, statusf,
  internal, Result-cases,
}
use progetto_sdcc.Auth.{Claims}
use progetto_sdcc.Upload.Record.{IsMemberResponse}
use progetto_sdcc.Upload.Stream.{Incoming}
use progetto_sdcc.Upload.Photo.{
  Services, Settings, Accepted, admit_upload, store_upload, upload_photo, object_key,
  members_or_none, content_type_of, public_url, record_of, event_of, response_of, resolve_members,
}
use progetto_sdcc.Upload.Photo.Admission.{
  Effect, asked, put, saved, listed, published, responded, recorded, allowed, permits, Traced,
  events, IsAdmitted, turned_back, not_let_in, let_in, admit_upload-Admission,
}

module _ (services : Services) (settings : Settings) where
  abbrev effects : Traced services settings → List Effect
  effects s = events services settings s

  abbrev pub key_of : Accepted (recorded services) settings → ℕ → String
  key_of a photo = object_key (recorded services) settings a.gallery photo a.meta.filename

  abbrev pub url_of : Accepted (recorded services) settings → ℕ → String → String
  url_of a photo stored = public_url (recorded services) settings stored (key_of a photo)

  -- What the second half comes to.
  data Storing (a : Accepted (recorded services) settings) (s : Traced services settings)
      (r : Result (Unit {0}) × Traced services settings) : Type 0 where
    not_put :
        (photo : ℕ) (x : Error)
        → r.0 ≡ err (statusf internal "store photo" x)
        → effects r.1 ≡ put (key_of a photo) (content_type_of a.meta) a.bytes (err x) ∷ effects s
        → Storing a s r
    put_and_told :
        (photo now later : ℕ) (stored : String) (members : List String)
        → effects r.1
          ≡ responded
              (response_of
                (recorded services)
                settings
                a
                photo
                (key_of a photo)
                (url_of a photo stored))
              r.0
            ∷ published (
                event_of
                  (recorded services)
                  settings
                  a
                  photo
                  (key_of a photo)
                  (url_of a photo stored)
                  members
                  later)
            ∷ listed (services.uuid_string a.gallery)
            ∷ saved (record_of (recorded services) settings a photo (key_of a photo) now)
            ∷ put (key_of a photo) (content_type_of a.meta) a.bytes (ok stored)
            ∷ effects s
        → Storing a s r

  store_upload-Storing :
      (a : Accepted (recorded services) settings) (s : Traced services settings)
      → Storing a s (store_upload (recorded services) settings a s)
  unfolding store_upload resolve_members
  store_upload-Storing a s =
      let drawn = services.new_uuid s.world.0 in
      let key = key_of a drawn.0 in
      elim (Result-cases (services.put_object key (content_type_of a.meta) a.bytes drawn.1).0) [
        | inr (x, e) ↦ not_put drawn.0 x (ground arith) (ground arith)
        | inl (stored, e) ↦
            let w = (services.put_object key (content_type_of a.meta) a.bytes drawn.1).1 in
            let rec = record_of (recorded services) settings a drawn.0 key (services.now w) in
            let l =
              services.list_members (services.uuid_string a.gallery) (services.save rec w).1 in
            put_and_told drawn.0 (services.now w) (services.now l.1) stored (members_or_none l.0)
              (ground arith)
      ]

  -- How an upload can end, by what was asked of the other services.
  pub data Outcome (claims : Option Claims) (stream : Incoming) (s : Traced services settings)
      (r : Result (Unit {0}) × Traced services settings) : Type 0 where
    turned_away : (e : Error) → r.0 ≡ err e → effects r.1 ≡ effects s → Outcome claims stream s r
    not_allowed :
        (e : Error) (g u : String) (x : Result IsMemberResponse)
        → r.0 ≡ err e
        → permits x ≡ false
        → effects r.1 ≡ asked g u x ∷ effects s
        → Outcome claims stream s r
    not_put :
        (a : Accepted (recorded services) settings) (b : IsMemberResponse) (photo : ℕ) (x : Error)
        → IsAdmitted services settings claims stream a
        → allowed b ≡ true
        → r.0 ≡ err (statusf internal "store photo" x)
        → effects r.1
          ≡ put (key_of a photo) (content_type_of a.meta) a.bytes (err x)
            ∷ asked (services.uuid_string a.gallery) (services.uuid_string a.uploader) (ok b)
            ∷ effects s
        → Outcome claims stream s r
    put_and_told :
        (a : Accepted (recorded services) settings) (b : IsMemberResponse) (photo now later : ℕ)
        (stored : String) (members : List String)
        → IsAdmitted services settings claims stream a
        → allowed b ≡ true
        → effects r.1
          ≡ responded
              (response_of
                (recorded services)
                settings
                a
                photo
                (key_of a photo)
                (url_of a photo stored))
              r.0
            ∷ published (
                event_of
                  (recorded services)
                  settings
                  a
                  photo
                  (key_of a photo)
                  (url_of a photo stored)
                  members
                  later)
            ∷ listed (services.uuid_string a.gallery)
            ∷ saved (record_of (recorded services) settings a photo (key_of a photo) now)
            ∷ put (key_of a photo) (content_type_of a.meta) a.bytes (ok stored)
            ∷ asked (services.uuid_string a.gallery) (services.uuid_string a.uploader) (ok b)
            ∷ effects s
        → Outcome claims stream s r

  -- Every upload, whatever the services answer, ends in one of four ways. It is turned away and no
  -- service was called; or the gallery service was asked, and failed or named the caller no member
  -- or the gallery closed, and nothing else was called; or the caller is a member and the gallery
  -- not closed, and the storage failed; or exactly the received bytes were stored, and after that
  -- one record was saved, the members were listed, one event was published and one response was
  -- sent, all with the key under which the bytes were stored and with their number.
  pub upload_photo-Outcome :
      (claims : Option Claims) (stream : Incoming) (s : Traced services settings)
      → Outcome claims stream s (upload_photo (recorded services) settings claims stream s)
  unfolding upload_photo
  upload_photo-Outcome claims stream s =
      elim (admit_upload-Admission services settings claims stream s) [
        | turned_back e p q ↦ turned_away e (ground arith) (ground arith)
        | not_let_in e g u x p n q ↦ not_allowed e g u x (ground arith) n (ground arith)
        | let_in a b p i y q ↦
            let s' = (admit_upload (recorded services) settings claims stream s).1 in
            let eq : upload_photo (recorded services) settings claims stream s
                ≡ store_upload (recorded services) settings a s' =
              ground arith in
            elim (store_upload-Storing a s') [
              | Storing.not_put photo x p' q' ↦
                  Outcome.not_put a b photo x i y (rw eq p') (rw (eq, q', q))
              | Storing.put_and_told photo now later stored members q' ↦
                  Outcome.put_and_told a b photo now later stored members i y (rw (eq, q', q))
            ]
      ]
