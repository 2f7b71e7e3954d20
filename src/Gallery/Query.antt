-- ===== src/Gallery/Query.antt =====
-- internal/gallery/query: the queries of the gallery service. The repository is a parameter: what it
-- answers while a request is handled.
use progetto_sdcc.Prelude.{
  ℕ, String, Bool, true, false, not, Option, none, some, List, [], ◌∷◌, status, statusf,
  invalid_argument, not_found, internal, unauthenticated, Result, ok, err, ◌>>=◌, ◌>>◌, guard,
  on_error, is_empty, ◌==◌, if◌then◌else◌,
}
use progetto_sdcc.Prelude.Int.{ℤ}
use progetto_sdcc.Gallery.{Gallery, GalleryStatus, Member}

-- `QueryRepository`. A page is asked for by a limit and the identifier after which it starts.
pub record QueryRepository : Type 0 where
  pub get_gallery : ℕ → Result Gallery
  pub list_galleries : ℤ → ℕ → Result (List Gallery)
  pub list_galleries_by_member : ℕ → ℤ → ℕ → Result (List Gallery)
  pub list_members : ℕ → Result (List Member)
  pub gallery_exists : ℕ → Result Bool
  pub is_member : ℕ → ℕ → Result (Bool × GalleryStatus)

-- `uuid.Parse` and `UUID.String`.
pub record Uuids : Type 0 where
  pub parse : String → Option ℕ
  pub text : ℕ → String

abbrev pub last_id : ℕ → List Gallery → ℕ
last_id id [] = id
last_id id (g ∷ gs) = last_id g.id gs

module _ (uuids : Uuids) (repo : QueryRepository) where
  abbrev parsed_token : Option ℕ → Result ℕ
  parsed_token none = err (status invalid_argument "invalid page token")
  parsed_token (some id) = ok id

  -- `after`, Nil for no token.
  abbrev pub after_of : String → Result ℕ
  after_of token = if is_empty token then ok 0 else parsed_token (uuids.parse token)

  abbrev pub next_page_token : List Gallery → String
  next_page_token [] = ""
  next_page_token (g ∷ gs) = uuids.text (last_id g.id gs)

  unfoldable pub get_gallery : ℕ → Result Gallery
  get_gallery id = on_error (λ _. status not_found "gallery not found") (repo.get_gallery id)

  unfoldable pub list_galleries_by_member : ℕ → ℤ → String → Result (List Gallery × String)
  list_galleries_by_member user page_size page_token = do
    guard (not (user == 0)) (status invalid_argument "user_id is required")
    after ← after_of page_token
    galleries ←
        on_error (statusf internal "list galleries by member")
          (repo.list_galleries_by_member user page_size after)
    ok (galleries, next_page_token galleries)

  unfoldable pub list_galleries : Bool → ℕ → ℤ → String → Result (List Gallery × String)
  list_galleries true caller page_size page_token = do
    guard (not (caller == 0)) (status unauthenticated "missing caller identity")
    list_galleries_by_member caller page_size page_token
  list_galleries false caller page_size page_token = do
    after ← after_of page_token
    galleries ← on_error (statusf internal "list galleries") (repo.list_galleries page_size after)
    ok (galleries, next_page_token galleries)

  unfoldable pub list_members : ℕ → Result (List Member)
  list_members id = do
    exists ← on_error (statusf internal "check gallery existence") (repo.gallery_exists id)
    guard exists (status not_found "gallery not found")
    on_error (statusf internal "list members") (repo.list_members id)

  unfoldable pub is_member : ℕ → ℕ → Result (Bool × GalleryStatus)
  is_member id user = do
    exists ← on_error (statusf internal "check gallery existence") (repo.gallery_exists id)
    guard exists (status not_found "gallery not found")
    on_error (statusf internal "gallery is closed") (repo.is_member id user)
