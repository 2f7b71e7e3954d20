-- ===== src/Subscription/Session.antt =====
-- internal/notification/grpc.go: the handler Subscribe, from the caller's identity to the removal of
-- the connection. `connection` is the identifier that the registry draws.
pub mod Effects
pub mod Served
use progetto_sdcc.Prelude.{
  ℕ, String, Bool, true, false, not, Option, none, some, List, [], ◌∷◌, Error, status,
  unauthenticated, Result, ok, err, ◌>>=◌, ◌>>◌, guard, ◌==◌, if◌then◌else◌,
}
use progetto_sdcc.Auth.{Claims, from_context}
use progetto_sdcc.Registry.{Registry, create_client, subscribe, remove_client}
use progetto_sdcc.Registry.Refinement.{Op, run}
use progetto_sdcc.Gallery.Query.{Uuids}
use progetto_sdcc.Subscription.{MemberClient, resolve_memberships}

-- `errors.Is(err, context.Canceled)`
abbrev is_canceled : Error → Bool
is_canceled Error.canceled = true
is_canceled (Error.wrapped text e) = is_canceled e
is_canceled _ = false

-- What the handler returns once the context is done, by the context's error.
abbrev pub end_status : Error → Result (Unit {0})
end_status e = if is_canceled e then ok tt else err e

-- The loop over the galleries.
unfoldable pub subscribe_each : ℕ → List ℕ → Registry → Registry
subscribe_each connection [] r = r
subscribe_each connection (g ∷ gs) r = subscribe_each connection gs (subscribe connection g r)

unfoldable pub open_session : ℕ → ℕ → ℕ → List ℕ → Registry → Registry
open_session connection user stream galleries r =
    subscribe_each connection galleries (create_client connection user stream r)

module _ (uuids : Uuids) (client : MemberClient) where
  -- Up to the memberships. Fuel bounds the pages.
  unfoldable pub resolve_caller : Option Claims → ℕ → Result (ℕ × List ℕ)
  resolve_caller claims fuel = do
    c ← from_context claims
    guard (not (c.user_id == 0)) (status unauthenticated "missing caller identity")
    galleries ← resolve_memberships uuids client fuel c.user_id ""
    ok (c.user_id, galleries)

  -- From the connection on: other calls change the registry while the handler waits for the end of
  -- the context, whose error is `ended`.
  abbrev serve_session :
      ℕ → ℕ → List Op → Error → Result (ℕ × List ℕ) → Registry → Result (Unit {0}) × Registry
  serve_session connection stream others ended (err e) r = (err e, r)
  serve_session connection stream others ended (ok (user, galleries)) r = (
    end_status ended,
    remove_client connection (run others (open_session connection user stream galleries r)),
  )

  unfoldable pub subscribe_handler :
      Option Claims → ℕ → ℕ → ℕ → List Op → Error → Registry → Result (Unit {0}) × Registry
  subscribe_handler claims fuel connection stream others ended =
      serve_session connection stream others ended (resolve_caller claims fuel)
