-- ===== src/Gallery/Api.antt =====
-- internal/gallery/api/grpc.go: the helpers and the query handlers of the gallery service's server. A
-- handler gets the claims that the context carries. An error that is passed on as its text is kept
-- as the argument of a format without a text.
pub mod Commands
pub mod Authorization
use text.Mathlib.Text.{◌==◌ as str_eq}
use progetto_sdcc.Prelude.{
  ℕ, String, Bool, true, false, Option, none, some, List, map, Error, status, statusf,
  invalid_argument, internal, permission_denied, Result, ok, err, ◌>>=◌, guard, ◌>>◌, on_error,
  if◌then◌else◌,
}
use progetto_sdcc.Prelude.Int.{ℤ}
use progetto_sdcc.Auth.{Claims, from_context}
use progetto_sdcc.Upload.Record.{IsMemberResponse, status_open, status_closed}
use progetto_sdcc.Gallery.{Gallery, GalleryStatus, gallery_open, gallery_closed, Member}
use progetto_sdcc.Gallery.Query as Query
use progetto_sdcc.Gallery.Query.{QueryRepository, Uuids}

-- `gallerypb.Gallery` and `gallerypb.Member`
pub record ProtoGallery : Type 0 where
  pub id : String
  pub name : String
  pub description : String
  pub moderator_id : String
  pub proto_status : progetto_sdcc.Upload.Record.GalleryStatus
  pub created_at : ℕ
  pub updated_at : ℕ

pub record ProtoMember : Type 0 where
  pub user_id : String
  pub gallery_id : String
  pub joined_at : ℕ

abbrev proto_status : GalleryStatus → progetto_sdcc.Upload.Record.GalleryStatus
proto_status gallery_open = status_open
proto_status gallery_closed = status_closed

abbrev pub caller_id_from_context : Option Claims → Result ℕ
caller_id_from_context claims = do c ← from_context claims; ok c.user_id

unfoldable pub moderator_id_from_context : Option Claims → Result ℕ
moderator_id_from_context claims = do
  c ← from_context claims
  guard (str_eq c.role "ROLE_MODERATOR") (status permission_denied "moderator role required")
  ok c.user_id

module _ (uuids : Uuids) where
  abbrev parsed : Error → Option ℕ → Result ℕ
  parsed e none = err e
  parsed e (some id) = ok id

  unfoldable pub parse_uuid : String → Result ℕ
  parse_uuid s = parsed (status invalid_argument "invalid gallery_id") (uuids.parse s)

  abbrev pub to_proto_gallery : Gallery → ProtoGallery
  to_proto_gallery g = record {
    id = uuids.text g.id;
    name = g.name;
    description = g.description;
    moderator_id = uuids.text g.moderator_id;
    proto_status = proto_status g.gallery_status;
    created_at = g.created_at;
    updated_at = g.updated_at;
  }

  abbrev pub to_proto_member : Member → ProtoMember
  to_proto_member m = record {
    user_id = uuids.text m.user_id;
    gallery_id = uuids.text m.gallery_id;
    joined_at = m.joined_at;
  }

  module _ (repo : QueryRepository) where
    unfoldable pub get_gallery : String → Result ProtoGallery
    unfolding parse_uuid
    get_gallery gallery = do
      id ← parse_uuid gallery
      g ← Query.get_gallery uuids repo id
      ok (to_proto_gallery g)

    abbrev answer : List Gallery × String → List ProtoGallery × String
    answer (galleries, next) = (map to_proto_gallery galleries, next)

    abbrev caller_of : Bool → Option Claims → Result ℕ
    caller_of my_galleries claims = if my_galleries then caller_id_from_context claims else ok 0

    unfoldable pub list_galleries :
        Option Claims → Bool → ℤ → String → Result (List ProtoGallery × String)
    list_galleries claims my_galleries page_size page_token = do
      caller ← caller_of my_galleries claims
      r ← Query.list_galleries uuids repo my_galleries caller page_size page_token
      ok (answer r)

    unfoldable pub list_galleries_by_member :
        String → ℤ → String → Result (List ProtoGallery × String)
    list_galleries_by_member user page_size page_token = do
      id ← parsed (status invalid_argument "invalid user_id") (uuids.parse user)
      r ← Query.list_galleries_by_member uuids repo id page_size page_token
      ok (answer r)

    unfoldable pub list_members : String → Result (List ProtoMember)
    list_members gallery = do
      id ← parse_uuid gallery
      members ← Query.list_members uuids repo id
      ok (map to_proto_member members)

    abbrev member_answer : Bool × GalleryStatus → IsMemberResponse
    member_answer (b, s) = record { is_member = b; gallery_status = proto_status s }

    unfoldable pub is_member : String → String → Result IsMemberResponse
    is_member gallery user = do
      g ← parsed (status invalid_argument "invalid gallery id") (uuids.parse gallery)
      u ← parsed (status invalid_argument "invalid user id") (uuids.parse user)
      r ← on_error (statusf internal "") (Query.is_member uuids repo g u)
      ok (member_answer r)
