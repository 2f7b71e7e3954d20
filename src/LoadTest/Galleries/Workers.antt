-- ===== src/LoadTest/Galleries/Workers.antt =====
-- The requests and the workers of cmd/testgallery/main.go. One worker is modelled alone; the pool that
-- the workers share is part of its state, behind the mutex.
use progetto_sdcc.Prelude.{
  ℕ, zero, suc, String, ◌<>◌, Bool, true, false, Option, none, some, List, [], ◌∷◌, ◌++◌, Result,
  ok, err, ◌==◌, ltb, if◌then◌else◌, is_empty, length,
}
use progetto_sdcc.Prelude.Int.{ℤ, pos, negsuc}
use progetto_sdcc.LoadTest.{OpResult}
use progetto_sdcc.LoadTest.Client.{
  HttpClient, Request, Response, GalleryResponse, bearer, as_json, outcome, timed_request,
  timed_list_galleries,
}
use progetto_sdcc.LoadTest.Galleries.{
  Operation, join_op, leave_op, get_op, list_members_op, list_my_op, list_all_op, MemberOp,
  total_weight, picked, or_last, element,
}

module _ (client : HttpClient) (gateway : String) where
  pub record State : Type 0 where
    pub world : client.World
    pub pool : List String

  -- `galleryPool.add`
  abbrev pub pool_add : String → State → State
  pool_add id s = record s { pool = s.pool ++ id ∷ [] }

  -- `galleryPool.random`
  unfoldable pub pool_random : State → Option String × State
  pool_random s =
      let r = client.intn (length s.pool) s.world in
      if length s.pool == 0 then (none, s) else (element r.0 s.pool, record s { world = r.1 })

  -- An operation that does not touch the pool.
  abbrev pub on_world : (client.World → OpResult × client.World) → State → OpResult × State
  on_world f s = ((f s.world).0, record s { world = (f s.world).1 })

  -- An operation on a gallery of the pool, which fails at once where there is none.
  abbrev on_gallery :
      String
      → (String → client.World → OpResult × client.World)
      → Option String × State
      → OpResult × State
  on_gallery op f (none, s) = (record { op = op; latency = 0; succeeded = false }, s)
  on_gallery op f (some id, s) = on_world (f id) s

  unfoldable pub timed_join_gallery : String → State → OpResult × State
  unfolding pool_random
  timed_join_gallery token s =
      on_gallery "joinGallery"
        (λ id.
          timed_request client gateway "joinGallery" "POST"
            ("/photogallery/galleries/" <> id <> "/members") "" (bearer token ∷ []))
        (pool_random s)

  unfoldable pub timed_leave_gallery : String → State → OpResult × State
  unfolding pool_random
  timed_leave_gallery token s =
      on_gallery "leaveGallery"
        (λ id.
          timed_request client gateway "leaveGallery" "DELETE"
            ("/photogallery/galleries/" <> id <> "/members") "" (bearer token ∷ []))
        (pool_random s)

  unfoldable pub timed_get_gallery : String → State → OpResult × State
  unfolding pool_random
  timed_get_gallery token s =
      on_gallery "getGallery"
        (λ id.
          timed_request client gateway "getGallery" "GET" ("/photogallery/galleries/" <> id) ""
            (bearer token ∷ []))
        (pool_random s)

  unfoldable pub timed_list_members : String → State → OpResult × State
  unfolding pool_random
  timed_list_members token s =
      on_gallery "listMembers"
        (λ id.
          timed_request client gateway "listMembers" "GET"
            ("/photogallery/galleries/" <> id <> "/members") "" (bearer token ∷ []))
        (pool_random s)

  -- The answer to CreateGallery: its gallery joins the pool if it has an identifier.
  abbrev created : Result GalleryResponse → State → Bool × State
  created (err e) s = (false, s)
  created (ok g) s = if is_empty g.id then (false, s) else (true, pool_add g.id s)

  abbrev pub create_answered : ℕ → Result Response × client.World → State → OpResult × State
  create_answered start (err e, w) s =
      on_world (outcome client gateway "createGallery" start false) (record s { world = w })
  create_answered start (ok r, w) s =
      let s' = record s { world = w } in
      let (good, s'') =
        if r.status_code == 200
        then created (client.decode_gallery r.content) s'
        else (false, s') in
      on_world (outcome client gateway "createGallery" start good) s''

  abbrev pub create_sent : String → ℕ → Result Request → State → OpResult × State
  create_sent token start (err e) s =
      on_world (outcome client gateway "createGallery" start false) s
  create_sent token start (ok req) s =
      create_answered start
        (client.send (record req { headers = as_json ∷ bearer token ∷ [] }) s.world) s

  unfoldable pub timed_create_gallery : String → State → OpResult × State
  timed_create_gallery token s =
      let t = client.now s.world in
      let name = client.stamped "loadtest-gallery" t.1 in
      let content =
        client.marshal
          (("name", name.0) ∷ ("description", "created by cmd/loadtestgallery") ∷ []) in
      create_sent token t.0
        (client.new_request "POST" (gateway <> "/photogallery/galleries") content)
        (record s { world = name.1 })

  -- `op.run`
  abbrev pub run_operation : Operation → String → State → OpResult × State
  run_operation join_op token = timed_join_gallery token
  run_operation leave_op token = timed_leave_gallery token
  run_operation get_op token = timed_get_gallery token
  run_operation list_members_op token = timed_list_members token
  run_operation list_my_op token = on_world (timed_list_galleries client gateway token true)
  run_operation list_all_op token = on_world (timed_list_galleries client gateway token false)

  -- The operations are a first one and others.
  unfoldable pub pick_member_op : MemberOp → List MemberOp → State → MemberOp × State
  pick_member_op o os s =
      let r = client.intn (total_weight (o ∷ os)) s.world in
      (or_last o os (picked r.0 (o ∷ os)), record s { world = r.1 })

  -- Before a time, read from the clock.
  abbrev pub before : ℕ → State → Bool × State
  before stop s = (ltb (client.now s.world).0 stop, record s { world = (client.now s.world).1 })

  -- The loop of a member worker; fuel bounds its rounds.
  unfoldable pub run_member_worker :
      ℕ → String → MemberOp → List MemberOp → ℕ → State → Option (List OpResult) × State
  run_member_worker zero token o os stop s = (none, s)
  run_member_worker (suc fuel) token o os stop s =
      let go = before stop s in
      let p = pick_member_op o os go.1 in
      let r = run_operation p.0.run token p.1 in
      let rest = run_member_worker fuel token o os stop r.1 in
      elim go.0 [
        | false ↦ (some [], go.1)
        | true ↦ (elim rest.0 [ none ↦ none | some rs ↦ some (r.0 ∷ rs) ], rest.1)
      ]

  -- `time.Sleep`, which returns at once for a duration that is not positive.
  abbrev pub rest_for : ℤ → State → State
  rest_for (pos n) s = record s { world = client.sleep n s.world }
  rest_for (negsuc n) s = s

  -- The loop of a moderator worker; fuel bounds its rounds.
  unfoldable pub run_moderator_worker : ℕ → String → ℤ → ℕ → State → Option (List OpResult) × State
  run_moderator_worker zero token interval stop s = (none, s)
  run_moderator_worker (suc fuel) token interval stop s =
      let t = client.now (rest_for interval s).world in
      let s' = record (rest_for interval s) { world = t.1 } in
      let r = timed_create_gallery token s' in
      let rest = run_moderator_worker fuel token interval stop r.1 in
      elim (ltb stop t.0) [
        | true ↦ (some [], s')
        | false ↦ (elim rest.0 [ none ↦ none | some rs ↦ some (r.0 ∷ rs) ], rest.1)
      ]
