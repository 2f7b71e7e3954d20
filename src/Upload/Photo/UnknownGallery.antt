-- ===== src/Upload/Photo/UnknownGallery.antt =====
-- The breaker of internal/upload/api/grpc.go in front of `IsMember` of internal/gallery/api/grpc.go, which
-- answers the same code for a gallery that it does not have as for a database that fails.
use progetto_sdcc.Prelude.{
  ℕ, zero, suc, ◌+◌, ◌<◌, ◌≡◌, none, arith, Error, statusf, status, internal, not_found,
  unavailable, err,
}
use progetto_sdcc.CircuitBreaker.{new_circuit_breaker, call}
use progetto_sdcc.CircuitBreaker.Sequential.{
  fail_once, Serving, new-Serving, fail_once-Serving, Refusing, fail_once-Refusing,
}
use progetto_sdcc.Gallery.Query.{Uuids}
use progetto_sdcc.Gallery.Api as Api
use progetto_sdcc.Gallery.Database.{Db}
use progetto_sdcc.Gallery.Database.Queries.{query_repository}
use progetto_sdcc.Gallery.Database.Meaning.{WriteLaws, ReadLaws}
use progetto_sdcc.Gallery.Database.Answers.{is_member-tables}
use progetto_sdcc.Subscription.Memberships.{WritesUuids}
use progetto_sdcc.Upload.Photo.{Services, Settings, Server, is_member, ask}

module _ (uuids : Uuids) (db : Db) (services : Services) (settings : Settings)
    (store : services.World → db.World) (later : services.World → services.World) where
  -- The services with the gallery service for the client's calls. The calls take time.
  abbrev pub linked : Services
  linked = record services {
    ask_member = λ g u w. (Api.is_member uuids (query_repository db (store w)) g u, later w);
    uuid_string = uuids.text;
  }

  abbrev pub Linked : Type 0
  Linked = Server linked settings

  abbrev pub asks : ℕ → ℕ → ℕ → Linked → Linked
  asks zero g u s = s
  asks (suc n) g u s = asks n g u (is_member linked settings g u s).1

  module _ (uuids_work : WritesUuids uuids) (writes : WriteLaws db)
      (reads : ReadLaws db writes) where
    absent_error : Error
    absent_error = statusf internal "" (status not_found "gallery not found")

    is_member-absent :
        (id user : ℕ) (w : db.World)
        → (writes.tables w).galleries id ≡ none
        → Api.is_member uuids (query_repository db w) (uuids.text id) (uuids.text user)
          ≡ err absent_error
    unfolding Api.is_member absent_error
    is_member-absent id user w h =
        let answer = is_member-tables db writes reads uuids id user w in
        ground (arith, uuids_work.parse-text id, uuids_work.parse-text user, answer, h)

    -- One such call at a breaker that serves.
    asked_once :
        (max reset n g u : ℕ) (s : Linked)
        → Serving max reset n s.gallery_breaker
        → (writes.tables (store s.world)).galleries g ≡ none
        → let r = is_member linked settings g u s in
          (r.1.gallery_breaker
            ≡ fail_once s.gallery_breaker (services.now s.world, services.now (later s.world)))
          × (r.1.world ≡ later s.world)
    unfolding is_member ask call
    asked_once max reset n g u s v h =
        let answer = is_member-absent g u (store s.world) h in ground (arith, answer, v.now)

    module _
        (quiet : (w : services.World) → writes.tables (store (later w)) ≡ writes.tables (store w))
        (reset g u : ℕ) where
      asks-Refusing :
          (max k n : ℕ) (s : Linked)
          → n + suc k ≡ max
          → Serving max reset n s.gallery_breaker
          → (writes.tables (store s.world)).galleries g ≡ none
          → let r = asks (suc k) g u s in Refusing reset (services.now r.world) r.gallery_breaker
      asks-Refusing max zero n s h v missing =
          let once = asked_once max reset n g u s v missing in
          rw (once.0, once.1)
            (fail_once-Refusing max reset n s.gallery_breaker
              (services.now s.world, services.now (later s.world)) (omega (arith, h)) v)
      asks-Refusing max (suc k) n s h v missing =
          let once = asked_once max reset n g u s v missing in
          asks-Refusing max k (n + 1) (is_member linked settings g u s).1 (omega (arith, h))
            (rw once.0 (
              fail_once-Serving max reset n s.gallery_breaker
                (services.now s.world, services.now (later s.world)) (omega (arith, h)) v))
            (rw (once.1, quiet s.world) missing)

      refused :
          (g' u' : ℕ) (s : Linked)
          → 0 < reset
          → Refusing reset (services.now s.world) s.gallery_breaker
          → is_member linked settings g' u' s
            ≡ (err (status unavailable "gallery service unavailable (circuit breaker open)"), s)
      unfolding is_member call
      refused g' u' s h v = ground (arith, v.opened, v.since_then, v.reset_kept)

      -- The upload server's breaker, new and with the limit `k + 1`, in front of the gallery server
      -- over its database, which nobody writes to meanwhile: after `k + 1` calls of `isMember` for a
      -- gallery that does not exist, a call for any gallery, an existing one too, is refused as
      -- unavailable, and neither the world nor the breaker changes.
      pub unknown_gallery-opens :
          (k g' u' : ℕ) (w : services.World)
          → 0 < reset
          → (writes.tables (store w)).galleries g ≡ none
          → let new : Linked = record {
            gallery_breaker = new_circuit_breaker (suc k) reset;
            world = w;
          } in
            let s = asks (suc k) g u new in
            is_member linked settings g' u' s
            ≡ (err (status unavailable "gallery service unavailable (circuit breaker open)"), s)
      unknown_gallery-opens k g' u' w some_time missing =
          let new : Linked = record {
            gallery_breaker = new_circuit_breaker (suc k) reset;
            world = w;
          } in
          refused g' u' (asks (suc k) g u new) some_time (
            asks-Refusing (suc k) k 0 new (omega arith) (new-Serving (suc k) reset (omega arith))
              missing)
