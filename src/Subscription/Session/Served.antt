-- ===== src/Subscription/Session/Served.antt =====
-- The handler Subscribe as a whole.
use progetto_sdcc.Prelude.{
  ℕ, ◌+◌, ◌≡◌, ◌≢◌, refl, false, Option, none, some, List, map, length, arith, Error, ok, ◌==◌,
}
use progetto_sdcc.Auth.{Claims}
use progetto_sdcc.Registry.{Registry}
use progetto_sdcc.Registry.Wellformed.{Inv}
use progetto_sdcc.Registry.Effects.{user_of}
use progetto_sdcc.Registry.Refinement.{Op, spec_run, view, AllFresh}
use progetto_sdcc.Gallery.{Gallery}
use progetto_sdcc.Gallery.Query.{Uuids, QueryRepository}
use progetto_sdcc.Gallery.Api.{list_galleries_by_member}
use progetto_sdcc.Subscription.{MemberClient}
use progetto_sdcc.Subscription.Memberships.{WritesUuids, ByMember, resolve_memberships-all}
use progetto_sdcc.Subscription.Session.{open_session, resolve_caller, subscribe_handler, end_status}
use progetto_sdcc.Subscription.Session.Effects.{
  opens, Opened, open_session-Opened, Closed, close-Closed,
}

-- If the handler finds the caller and the galleries, the connection's identifier is not in use and
-- the registry is well-formed, then after the handler the registry is well-formed, the connection
-- is gone, every other connection is as the calls of others alone make it, and the handler returns
-- nothing for a cancelled context and the context's error for another one.
pub subscribe_handler-Closed :
    (uuids : Uuids) (client : MemberClient) (claims : Option Claims) (fuel c stream user : ℕ)
    (galleries : List ℕ) (others : List Op) (ended : Error) (r : Registry)
    (fresh : user_of r c ≡ none) (v : Inv r)
    → resolve_caller uuids client claims fuel ≡ ok (user, galleries)
    → AllFresh others (spec_run (opens c user stream galleries) (view r))
    → let x = subscribe_handler uuids client claims fuel c stream others ended r in
      (x.0 ≡ end_status ended) × Closed c r fresh v others x.1
unfolding subscribe_handler
subscribe_handler-Closed uuids client claims fuel c stream user galleries others ended r fresh v e
      f =
    rw e (refl, close-Closed c r fresh v user stream galleries others f)

module _ (uuids : Uuids) (writes : WritesUuids uuids) (repo : QueryRepository)
    (rows : ℕ → List Gallery) (members : ByMember repo rows) where
  -- For an authenticated user whose galleries the gallery service lists, the handler finds all of
  -- them with one call more than there are galleries at most, and opens a connection that follows
  -- exactly these galleries and changes no other connection.
  pub open_session-memberships :
      (claims : Claims) (c stream : ℕ) (r : Registry) (fresh : user_of r c ≡ none) (v : Inv r)
      → claims.user_id ≢ 0
      → (galleries : List ℕ) × (galleries ≡ map (λ (g : Gallery). g.id) (rows claims.user_id))
        × (resolve_caller uuids
              (list_galleries_by_member uuids repo)
              (some claims)
              (length (rows claims.user_id) + 1)
            ≡ ok (claims.user_id, galleries))
        × Opened c r fresh v claims.user_id galleries
            (open_session c claims.user_id stream galleries r)
  unfolding resolve_caller
  open_session-memberships claims c stream r fresh v given =
      let there : (claims.user_id == 0) ≡ false = ground arith in
      (
        map (λ (g : Gallery). g.id) (rows claims.user_id),
        refl,
        rw (there, resolve_memberships-all uuids writes repo rows members claims.user_id given)
            refl,
        open_session-Opened c r fresh v claims.user_id stream _,
      )
