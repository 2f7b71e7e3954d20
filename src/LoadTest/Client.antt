-- ===== src/LoadTest/Client.antt =====
-- What cmd/testgallery/main.go and cmd/testupload/main.go call, and the requests that both make. A
-- log.Fatal is an error.
use progetto_sdcc.Prelude.{
  ℕ, ◌-◌, String, ◌<>◌, Bool, true, false, List, [], ◌∷◌, wrapped, plain, Result, ok, err, ◌==◌,
}
use progetto_sdcc.Prelude.Action.{Action, ◌>>=◌, ◌>>◌, pure, lift, or_fail, require}
use progetto_sdcc.LoadTest.{OpResult}

pub record Request : Type 0 where
  pub method : String
  pub url : String
  pub content : String
  pub headers : List (String × String)

pub record Response : Type 0 where
  pub status_code : ℕ
  pub content : String

-- `galleryResponse`
pub record GalleryResponse : Type 0 where
  pub id : String
  pub name : String

-- `World` is the services, the clock and the source of random numbers.
pub record HttpClient : Type 1 where
  pub World : Type 0
  -- `time.Now`, `time.Sleep` and `rng.Intn`
  pub now : World → ℕ × World
  pub sleep : ℕ → World → World
  pub intn : ℕ → World → ℕ × World
  -- `http.NewRequest`, and `httpClient.Do` with the reading of the body
  pub new_request : String → String → String → Result Request
  pub send : Request → World → Result Response × World
  -- `fmt.Sprintf` of a text with the clock, and with a random number
  pub stamped : String → World → String × World
  -- `json.Marshal` of a map of strings, and the decoding of a token and of a gallery
  pub marshal : List (String × String) → String
  pub decode_token : String → Result String
  pub decode_gallery : String → Result GalleryResponse

abbrev pub bearer : String → String × String
bearer token = ("Authorization", "Bearer " <> token)

abbrev pub as_json : String × String
as_json = ("Content-Type", "application/json")

module _ (client : HttpClient) (gateway : String) where
  open client use {World}

  -- The end of an operation: `opResult{op, time.Since(start), ok}`.
  abbrev pub outcome : String → ℕ → Bool → World → OpResult × World
  outcome op start good w =
      let t = client.now w in (record { op = op; latency = t.0 - start; succeeded = good }, t.1)

  abbrev pub answered : String → ℕ → Result Response × World → OpResult × World
  answered op start (err e, w) = outcome op start false w
  answered op start (ok r, w) = outcome op start (r.status_code == 200) w

  abbrev pub sent : String → ℕ → List (String × String) → Result Request → World → OpResult × World
  sent op start headers (err e) w = outcome op start false w
  sent op start headers (ok req) w =
      answered op start (client.send (record req { headers = headers }) w)

  -- A timed request: operation, method, path, body and headers.
  unfoldable pub timed_request :
      String → String → String → String → List (String × String) → World → OpResult × World
  timed_request op method path content headers w =
      let t = client.now w in
      sent op t.0 headers (client.new_request method (gateway <> path) content) t.1

  unfoldable pub timed_list_galleries : String → Bool → World → OpResult × World
  timed_list_galleries token true =
      timed_request "listMyGalleries" "GET" "/photogallery/galleries?my_galleries=true" ""
        (bearer token ∷ [])
  timed_list_galleries token false =
      timed_request "listAllGalleries" "GET" "/photogallery/galleries" "" (bearer token ∷ [])

  -- A text with the clock in it.
  abbrev pub fresh : String → Action World String
  fresh text w = (ok (client.stamped text w).0, (client.stamped text w).1)

  -- A request of the setup, which stops the program unless it is answered with the status 200.
  unfoldable pub must_send :
      String → String → String → String → List (String × String) → Action World Response
  must_send step method path content headers = do
    req ←
        or_fail (wrapped (step <> ": build request"))
          (lift (client.new_request method (gateway <> path) content))
    resp ← or_fail (wrapped step) (client.send (record req { headers = headers }))
    require (resp.status_code == 200) (plain (step <> ": status"))
    pure resp

  unfoldable pub must_register : String → String → Action World String
  must_register prefix role = do
    email ← fresh prefix
    let content =
        client.marshal (("email", email) ∷ ("password", "password123") ∷ ("role", role) ∷ [])
    resp ← must_send "register" "POST" "/photogallery/auth/register" content (as_json ∷ [])
    or_fail (wrapped "register: decode response") (lift (client.decode_token resp.content))

  unfoldable pub must_create_gallery :
      String → String → String → String → Action World GalleryResponse
  must_create_gallery step token name description = do
    let content = client.marshal (("name", name) ∷ ("description", description) ∷ [])
    resp ← must_send step "POST" "/photogallery/galleries" content (as_json ∷ bearer token ∷ [])
    or_fail (wrapped (step <> ": decode response")) (lift (client.decode_gallery resp.content))
