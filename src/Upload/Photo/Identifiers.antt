-- ===== src/Upload/Photo/Identifiers.antt =====
-- What `Server.uploadPhoto` does with a gallery identifier that is no UUID.
use progetto_sdcc.Prelude.{
  ℕ, ◌≡◌, false, List, ◌∷◌, some, arith, Result, ok, err, if◌then◌else◌, inl, inr, Bool-cases,
  Result-cases,
}
use progetto_sdcc.Auth.{Claims}
use progetto_sdcc.CircuitBreaker.{admit, call}
use progetto_sdcc.Upload.Record.{IsMemberResponse}
use progetto_sdcc.Upload.Stream.{UploadMetadata, Incoming, receive_photo}
use progetto_sdcc.Upload.Photo.Admission.{
  asked, recorded, allowed, denial, unavailable_error, Traced, events,
}
use progetto_sdcc.Upload.Photo.{
  Services, Settings, Accepted, ask, is_member, member_error, admit_upload,
}

module _ (services : Services) (settings : Settings) where
  -- What the answer of the gallery service decides.
  abbrev pub judged :
      Accepted (recorded services) settings
      → Result IsMemberResponse
      → Result (Accepted (recorded services) settings)
  judged a (err e) = err (member_error e)
  judged a (ok r) = if allowed r then ok a else err (denial r)

  -- An upload whose gallery identifier does not parse is handled as an upload for the identifier `g`
  -- that `uuid.Parse` returns beside its error. If the data is received and the caller authentic,
  -- then, when the breaker admits a call, the gallery service is asked once, about `g` and the caller,
  -- and the upload is let in for `g` if the answer names the caller a member of a gallery that is not
  -- closed, and else is refused as that answer has it; when the breaker admits none, nothing is asked,
  -- and the upload is refused as unavailable.
  pub admit_upload-unparsable :
      (c : Claims) (stream : Incoming) (m : UploadMetadata) (bytes : List ℕ) (g : ℕ)
      (s : Traced services settings)
      → receive_photo stream ≡ ok (m, bytes)
      → services.parse_uuid m.gallery_id ≡ (g, false)
      → let r = admit_upload (recorded services) settings (some c) stream s in
        let gallery = services.uuid_string g in
        let user = services.uuid_string c.user_id in
        let answer = (services.ask_member gallery user s.world.0).0 in
        let enters = (admit s.gallery_breaker (services.now s.world.0)).1 in
        let upload : Accepted (recorded services) settings = record {
          meta = m;
          bytes = bytes;
          gallery = g;
          uploader = c.user_id;
        } in
        (r.0 ≡ (if enters then judged upload answer else err (unavailable_error services settings)))
        × (events services settings r.1 ≡ (
            if enters
            then asked gallery user answer ∷ events services settings s
            else events services settings s))
  unfolding admit_upload is_member ask call
  admit_upload-unparsable c stream m bytes g s received parsed =
      let gallery = services.uuid_string g in
      let user = services.uuid_string c.user_id in
      elim (Bool-cases (admit s.gallery_breaker (services.now s.world.0)).1) [
        | inr closed ↦ (ground (arith, parsed), ground (arith, parsed))
        | inl opened ↦ elim (Result-cases (services.ask_member gallery user s.world.0).0) [
          | inr (x, e) ↦ (ground (arith, parsed), ground (arith, parsed))
          | inl (a, e) ↦ elim (Bool-cases (allowed a)) [
            | inl yes_in ↦ (ground (arith, parsed), ground (arith, parsed))
            | inr refused ↦ (ground (arith, parsed), ground (arith, parsed))
          ]
        ]
      ]
