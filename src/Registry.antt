-- ===== src/Registry.antt =====
-- internal/notification/registry.go: the connections of one replica, indexed by gallery, by user and
-- by connection. The three maps hold pointers to the same `Client`s, so the clients stand on a heap
-- and the maps hold addresses. Each method but Notify holds the lock throughout: it is one function
-- on the registry. Notify takes a snapshot under the read lock (`targets`) and sends outside it
-- (`deliver`, over whatever the registry is by then).
mod Nested
pub mod Wellformed
pub mod Effects
pub mod Refinement
pub mod Leaks
pub mod Delivery
pub mod Interleaving
mod Tests
use progetto_sdcc.Prelude.{
  ℕ, suc, ◌≡◌, Bool, true, false, Option, none, some, List, [], ◌∷◌, Error, ◌==◌, if◌then◌else◌,
}
use progetto_sdcc.Prelude.Dict.{Dict, lookup, insert, erase, has, entries}
use Nested.{Index, ensure, put, drop_entry}

pub record Client : Type 0 where
  pub id : ℕ
  pub user_id : ℕ
  -- The handle of the gRPC stream.
  pub stream : ℕ
  pub galleries : Dict (Unit {0})

pub record Registry : Type 0 where
  pub galleries : Index
  pub clients : Index
  pub connections : Dict ℕ
  -- The clients that the addresses in the maps stand for; addresses from `next` on are free.
  pub heap : ℕ → Client
  pub next : ℕ

abbrev no_client : Client
no_client = record { id = 0; user_id = 0; stream = 0; galleries = [] }

-- `New`
pub new : Registry
new = record { galleries = []; clients = []; connections = []; heap = λ _. no_client; next = 0 }

-- A write through a pointer.
abbrev pub store : (ℕ → Client) → ℕ → Client → ℕ → Client
store heap p c q = if p == q then c else heap q

-- `client.galleries[galleryID] = struct{}{}` and `delete(client.galleries, galleryID)`
abbrev pub follow : ℕ → Client → Client
follow g c = record c { galleries = insert g tt c.galleries }

abbrev pub unfollow : ℕ → Client → Client
unfollow g c = record c { galleries = erase g c.galleries }

-- `connection` is the identifier that `uuid.New()` gave.
unfoldable pub create_client : ℕ → ℕ → ℕ → Registry → Registry
create_client connection user stream r = record r {
  heap =
      store r.heap r.next
        (record { id = connection; user_id = user; stream = stream; galleries = [] });
  next = suc r.next;
  connections = insert connection r.next r.connections;
  clients = put user connection r.next (ensure user r.clients);
}

-- The two writes by which a connection at address `p` starts to follow a gallery.
unfoldable pub link : ℕ → ℕ → ℕ → Registry → Registry
link g c p r = record r {
  heap = store r.heap p (follow g (r.heap p));
  galleries = put g c p r.galleries;
}

unfoldable pub subscribe : ℕ → ℕ → Registry → Registry
subscribe c g r = elim (lookup c r.connections) [
  | none ↦ r
  | some p ↦
      if has g (r.heap p).galleries
      then r
      else link g c p (record r { galleries = ensure g r.galleries })
]

-- The loop of AddGalleryForClient, over the connections of the user.
unfoldable pub link_all : ℕ → Dict ℕ → Registry → Registry
link_all g [] r = r
link_all g ((c, p) ∷ rest) r = link_all g rest (link g c p r)

unfoldable pub add_gallery_for_client : ℕ → ℕ → Registry → Registry
add_gallery_for_client g user r = elim (lookup user r.clients) [
  | none ↦ r
  | some connections ↦
      link_all g (entries connections) (record r { galleries = ensure g r.galleries })
]

-- One round of the loop of Unsubscribe.
unfoldable pub unlink : ℕ → ℕ → ℕ → Registry → Registry
unlink g c p r =
    if has g (r.heap p).galleries
    then record r {
      heap = store r.heap p (unfollow g (r.heap p));
      galleries = drop_entry g c r.galleries;
    }
    else r

unfoldable pub unlink_all : ℕ → Dict ℕ → Registry → Registry
unlink_all g [] r = r
unlink_all g ((c, p) ∷ rest) r = unlink_all g rest (unlink g c p r)

unfoldable pub unsubscribe : ℕ → ℕ → Registry → Registry
unsubscribe g user r = elim (lookup user r.clients) [
  | none ↦ r
  | some connections ↦ unlink_all g (entries connections) r
]

-- The loop of RemoveClient over `client.galleries`.
unfoldable pub drop_entries : ℕ → Dict (Unit {0}) → Index → Index
drop_entries c [] d = d
drop_entries c ((g, _) ∷ gs) d = drop_entries c gs (drop_entry g c d)

unfoldable pub remove_client : ℕ → Registry → Registry
remove_client c r = elim (lookup c r.connections) [
  | none ↦ r
  | some p ↦ record r {
    galleries = drop_entries c (entries (r.heap p).galleries) r.galleries;
    clients = drop_entry (r.heap p).user_id c r.clients;
    connections = erase c r.connections;
  }
]

-- The snapshot of Notify: the addresses of the connections that follow the gallery.
abbrev values : Dict ℕ → List ℕ
values [] = []
values ((k, v) ∷ d) = v ∷ values d

unfoldable pub targets : ℕ → Registry → List ℕ
targets g r = elim (lookup g r.galleries) [ none ↦ [] | some m ↦ values (entries m) ]

-- The loop of Notify outside the lock. `send` is `Stream.Send` on a stream's handle, with its error;
-- the result is the registry after the failed connections were removed, and what was sent where.
module _ {N : Type 0} (send : ℕ → N → Option Error) (n : N) where
  unfoldable pub deliver : List ℕ → Registry → Registry × Dict (Option Error)
  deliver [] r = (r, [])
  deliver (p ∷ ps) r = elim (send (r.heap p).stream n) [
    | none ↦ let rest = deliver ps r in (rest.0, ((r.heap p).id, none) ∷ rest.1)
    | some e ↦
        let rest = deliver ps (remove_client (r.heap p).id r) in
        (rest.0, ((r.heap p).id, some e) ∷ rest.1)
  ]

  unfoldable pub notify : ℕ → Registry → Registry × Dict (Option Error)
  notify g r = deliver (targets g r) r
