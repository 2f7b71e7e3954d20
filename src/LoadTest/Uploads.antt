-- ===== src/LoadTest/Uploads.antt =====
-- cmd/testupload/main.go: the load on the upload service, and the crash that it may inject. One
-- worker is modelled alone, and the setup one user after the other.
use progetto_sdcc.Prelude.{
  ◌%◌, ℕ, zero, suc, ◌+◌, ◌-◌, String, ◌<>◌, Bool, true, false, ◌||◌, ◌&&◌, Option, none, some,
  List, [], ◌∷◌, ◌++◌, plain, wrapped, Result, ok, err, ltb, if◌then◌else◌, is_empty,
}
use progetto_sdcc.Prelude.Action.{Action, pure, or_fail, ◌>>=◌, ◌>>◌}
use progetto_sdcc.Prelude.Int.{ℤ, pos, negsuc}
use progetto_sdcc.LoadTest.{OpResult}
use progetto_sdcc.LoadTest.Client.{
  HttpClient, bearer, outcome, sent, timed_list_galleries, must_send, must_register,
}
use progetto_sdcc.LoadTest.Galleries.{negative, size, word, half_word}

pub record Flags : Type 0 where
  pub users : ℤ
  pub duration : ℤ
  pub upload_pct : ℤ
  pub list_my_pct : ℤ
  pub crash_after : ℤ
  pub crash_duration : ℤ
  pub crash_service : String
  pub crash_ssh_host : String
  pub crash_ssh_key : String
  pub crash_compose_dir : String

-- `config`
pub record Config : Type 0 where
  pub users : ℕ
  pub duration : ℤ
  pub upload_pct : ℕ
  pub list_my_pct : ℕ

-- `crashConfig`
pub record CrashConfig : Type 0 where
  pub enabled : Bool
  pub after : ℤ
  pub duration : ℤ
  pub service : String
  pub ssh_host : String
  pub ssh_key : String
  pub compose_dir : String

abbrev positive : ℤ → Bool
positive (pos n) = ltb 0 n
positive (negsuc n) = false

abbrev crash_config : Flags → CrashConfig
crash_config f = record {
  enabled = positive f.crash_after;
  after = f.crash_after;
  duration = f.crash_duration;
  service = f.crash_service;
  ssh_host = f.crash_ssh_host;
  ssh_key = f.crash_ssh_key;
  compose_dir = f.crash_compose_dir;
}

-- As in Galleries, the sum is taken of sizes.
unfoldable pub parse_flags : Flags → Result (Config × CrashConfig)
parse_flags f =
    let total = size f.upload_pct + size f.list_my_pct in
    let wrong =
      negative f.upload_pct
      || negative f.list_my_pct
      || (ltb 100 (total % word) && ltb (total % word) half_word) in
    let config : Config = record {
      users = size f.users;
      duration = f.duration;
      upload_pct = size f.upload_pct;
      list_my_pct = size f.list_my_pct;
    } in
    if wrong
    then err (plain "upload-pct and list-my-pct must each be >= 0 and sum to <= 100")
    else if ltb (size f.users) 2
    then err (plain "-users must be at least 2")
    else if positive f.crash_after && is_empty f.crash_ssh_host
    then err (plain "-crash-after > 0 requires -crash-ssh-host")
    else ok (config, crash_config f)

-- What else this program calls: the multipart writer, for a gallery, with the type and the text of
-- the form; and `exec.Command("ssh", args...).CombinedOutput`.
pub record Tools (client : HttpClient) : Type 0 where
  pub photo_form : String → Result (String × String)
  pub ssh : List String → client.World → Result String × client.World

-- What a worker does next, for a random number below 100.
pub data Choice : Type 0 where
  lists_mine uploads lists_all : Choice

abbrev wrapped_sum : Config → ℕ
wrapped_sum cfg = (cfg.list_my_pct + cfg.upload_pct) % word

-- The sum of the two percentages is one of `int`s, and negative where it wraps.
abbrev pub choose : Config → ℕ → Choice
choose cfg roll =
    if ltb roll cfg.list_my_pct
    then lists_mine
    else if ltb roll (wrapped_sum cfg) && ltb (wrapped_sum cfg) half_word
    then uploads
    else lists_all

module _ (client : HttpClient) (gateway : String) (tools : Tools client) where
  open client use {World}

  abbrev upload_written : String → ℕ → Result (String × String) → World → OpResult × World
  upload_written token start (err e) w = outcome client gateway "uploadPhoto" start false w
  upload_written token start (ok (kind, content)) w =
      sent client gateway "uploadPhoto" start (("Content-Type", kind) ∷ bearer token ∷ [])
        (client.new_request "POST" (gateway <> "/api/uploads") content) w

  unfoldable pub timed_upload_photo : String → String → World → OpResult × World
  timed_upload_photo token gallery w =
      let t = client.now w in upload_written token t.0 (tools.photo_form gallery) t.1

  abbrev pub run_choice : Choice → String → String → World → OpResult × World
  run_choice lists_mine token gallery = timed_list_galleries client gateway token true
  run_choice uploads token gallery = timed_upload_photo token gallery
  run_choice lists_all token gallery = timed_list_galleries client gateway token false

  -- The loop of a worker; fuel bounds its rounds.
  unfoldable pub run_worker :
      ℕ → Config → String → String → ℕ → World → Option (List OpResult) × World
  run_worker zero cfg token gallery stop w = (none, w)
  run_worker (suc fuel) cfg token gallery stop w =
      let t = client.now w in
      let roll = client.intn 100 t.1 in
      let r = run_choice (choose cfg roll.0) token gallery roll.1 in
      let rest = run_worker fuel cfg token gallery stop r.1 in
      elim (ltb t.0 stop) [
        | false ↦ (some [], t.1)
        | true ↦ (elim rest.0 [ none ↦ none | some rs ↦ some (r.0 ∷ rs) ], rest.1)
      ]

  unfoldable pub must_join_gallery : String → String → Action World (Unit {0})
  must_join_gallery token gallery = do
    resp ←
        must_send client gateway "join gallery" "POST"
          ("/photogallery/galleries/" <> gallery <> "/members") "" (bearer token ∷ [])
    pure tt

  -- The tokens of the users, who are registered and join the gallery.
  unfoldable pub setup_users : ℕ → String → Action World (List String)
  setup_users zero gallery = pure []
  setup_users (suc n) gallery = do
    token ← must_register client gateway "loadtest" "ROLE_USER"
    must_join_gallery token gallery
    tokens ← setup_users n gallery
    pure (token ∷ tokens)

  abbrev key_args : String → List String
  key_args key = if is_empty key then [] else "-i" ∷ key ∷ []

  unfoldable pub run_remote_compose : CrashConfig → String → Action World (Unit {0})
  run_remote_compose cfg action = do
    let remote = "cd " <> cfg.compose_dir <> " && docker compose " <> action <> " " <> cfg.service
    out ← or_fail (wrapped "ssh") (
        tools.ssh
          ("-o" ∷ "BatchMode=yes" ∷ [] ++ key_args cfg.ssh_key ++ cfg.ssh_host ∷ remote ∷ []))
    pure tt

  abbrev sleep_for : ℤ → World → World
  sleep_for (pos n) w = client.sleep n w
  sleep_for (negsuc n) w = w

  -- The offsets from the start of the load.
  pub record Offsets : Type 0 where
    pub stopped : ℕ
    pub restarted : ℕ

  -- After the service was asked to stop.
  abbrev restart : CrashConfig → ℕ → ℕ → Result (Unit {0}) × World → Offsets × World
  restart cfg start stopped (err e, w) = (record { stopped = stopped; restarted = 0 }, w)
  restart cfg start stopped (ok u, w) =
      let t = client.now (sleep_for cfg.duration w) in
      (
        record { stopped = stopped; restarted = t.0 - start },
        (run_remote_compose cfg "start" t.1).1,
      )

  unfoldable pub run_crash : CrashConfig → ℕ → World → Offsets × World
  unfolding run_remote_compose
  run_crash cfg start w =
      let t = client.now (sleep_for cfg.after w) in
      restart cfg start (t.0 - start) (run_remote_compose cfg "stop" t.1)
