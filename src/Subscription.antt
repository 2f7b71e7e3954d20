-- ===== src/Subscription.antt =====
-- internal/notification/grpc.go: the subscription of a client to the galleries of its user.
pub mod Memberships
pub mod Session
pub mod Strokes
mod Tests
use text.Mathlib.Text.{◌==◌ as str_eq}
use progetto_sdcc.Prelude.{
  ℕ, zero, suc, String, Bool, true, false, ◌||◌, Option, none, some, List, [], ◌∷◌, ◌++◌, Error,
  status, statusf, plain, internal, unauthenticated, Result, ok, err, ◌>>=◌, ◌>>◌, guard, on_error,
  not, is_empty, ◌==◌,
}
use progetto_sdcc.Prelude.Int.{ℤ, pos}
use progetto_sdcc.Gallery.Query.{Uuids}
use progetto_sdcc.Gallery.Api.{ProtoGallery}

abbrev pub membership_page_size : ℕ
membership_page_size = 100

-- `GalleryServiceClient.ListGalleriesByMember`: user, page size and page token; galleries and the
-- next page token.
abbrev pub MemberClient : Type 0
MemberClient = String → ℤ → String → Result (List ProtoGallery × String)

module _ (uuids : Uuids) where
  abbrev id_of : Option ℕ → Result ℕ
  id_of none = err (statusf internal "gallery service returned invalid gallery id" (plain "uuid"))
  id_of (some id) = ok id

  -- The loop over a page.
  unfoldable pub ids_of : List ProtoGallery → Result (List ℕ)
  ids_of [] = ok []
  ids_of (g ∷ gs) = do id ← id_of (uuids.parse g.id); ids ← ids_of gs; ok (id ∷ ids)

  -- The loop over the pages, from a page token on. Fuel bounds the pages.
  unfoldable pub resolve_memberships : MemberClient → ℕ → ℕ → String → Result (List ℕ)
  resolve_memberships client zero user token = err (plain "out of fuel")
  resolve_memberships client (suc fuel) user token = do
    let rest = λ (next : String). resolve_memberships client fuel user next
    (galleries, next) ←
        on_error (statusf internal "resolving gallery memberships")
          (client (uuids.text user) (pos membership_page_size) token)
    ids ← ids_of galleries
    elim (is_empty next || str_eq next token) [
      | true ↦ ok ids
      | false ↦ rest next >>= λ others. ok (ids ++ others)
    ]
