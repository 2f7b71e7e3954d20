-- ===== src/Subscription/Tests.antt =====
-- User 5 is a member of the galleries 2 and 7; identifiers are written as as many strokes.
use progetto_sdcc.Prelude.{
  ℕ, none, canceled, ◌≡◌, ◌≢◌, refl, ap, true, some, List, [], ◌∷◌, ok, arith, take, ◌==◌,
  if◌then◌else◌,
}
use progetto_sdcc.Prelude.Int.{ℤ, pos, negsuc}
use progetto_sdcc.Gallery.{Gallery, gallery_open}
use progetto_sdcc.Gallery.Query.{QueryRepository}
use progetto_sdcc.Gallery.Api.{list_galleries_by_member}
use progetto_sdcc.Auth.{Claims}
use progetto_sdcc.Registry.{Registry, new}
use progetto_sdcc.Registry.Wellformed.{Inv}
use progetto_sdcc.Registry.Effects.{user_of}
use progetto_sdcc.Registry.Refinement.{
  Op, creates, leaves, run, run-new, spec_run, view, View, AllFresh,
}
use progetto_sdcc.Subscription.Strokes.{uuids, uuids-WritesUuids}
use progetto_sdcc.Subscription.Session.{open_session, resolve_caller, subscribe_handler}
use progetto_sdcc.Subscription.Session.Effects.{Opened, Closed, opens}
use progetto_sdcc.Subscription.Session.Served.{open_session-memberships, subscribe_handler-Closed}
use progetto_sdcc.Subscription.Memberships.{ByMember, above, resolve_memberships-all}

abbrev gallery : ℕ → Gallery
gallery n = record {
  id = n;
  name = "sea";
  description = "";
  gallery_status = gallery_open;
  moderator_id = 9;
  created_at = 1;
  updated_at = 1;
}

abbrev rows : ℕ → List Gallery
rows user = if user == 5 then gallery 2 ∷ gallery 7 ∷ [] else []

abbrev size_of : ℤ → ℕ
size_of (pos n) = n
size_of (negsuc n) = 0

abbrev repository : QueryRepository
repository = record {
  get_gallery = λ id. ok (gallery id);
  list_galleries = λ limit after. ok [];
  list_galleries_by_member =
      λ user limit after. ok (take (size_of limit) (above after (rows user)));
  list_members = λ id. ok [];
  gallery_exists = λ id. ok true;
  is_member = λ id user. ok (true, gallery_open);
}

repository-ByMember : ByMember repository rows
repository-ByMember = record {
  ascending = λ user. ground arith;
  pages = λ user limit after h. refl;
}

given : ◌≢◌ {A = ℕ} 5 0
given = λ h. absurd (omega arith)

-- User 5 connects beside a connection of user 8; meanwhile another user connects, and user 5 leaves
-- gallery 2.
abbrev claims : Claims
claims = record { user_id = 5; role = "ROLE_USER" }

abbrev before : Registry
before = run (creates 1 8 100 ∷ []) new

before-Inv : Inv before
before-Inv = (run-new (creates 1 8 100 ∷ []) (refl, tt)).0

there_is_one : (c : ℕ) → user_of before c ≡ (if 1 == c then some 8 else none)
there_is_one c = ap (λ (x : View). x.user c) (run-new (creates 1 8 100 ∷ []) (refl, tt)).1

not_there : user_of before 3 ≡ none
not_there = there_is_one 3

open_session-memberships_example :
    (galleries : List ℕ) × (galleries ≡ 2 ∷ 7 ∷ [])
    × (resolve_caller uuids (list_galleries_by_member uuids repository) (some claims) 3
        ≡ ok (5, galleries))
    × Opened 3 before not_there before-Inv 5 galleries (open_session 3 5 300 galleries before)
open_session-memberships_example =
    open_session-memberships uuids uuids-WritesUuids repository rows repository-ByMember claims 3
      300 before not_there before-Inv given

abbrev others : List Op
others = creates 4 9 400 ∷ leaves 2 5 ∷ []

caller_known :
    resolve_caller uuids (list_galleries_by_member uuids repository) (some claims) 3
    ≡ ok (5, 2 ∷ 7 ∷ [])
unfolding resolve_caller
caller_known =
    rw (resolve_memberships-all uuids uuids-WritesUuids repository rows repository-ByMember 5 given)
      refl

others-fresh : AllFresh others (spec_run (opens 3 5 300 (2 ∷ 7 ∷ [])) (view before))
others-fresh = (there_is_one 4, (tt, tt))

subscribe_handler-Closed_example :
    let x =
      subscribe_handler uuids
        (list_galleries_by_member uuids repository)
        (some claims)
        3
        3
        300
        others
        canceled
        before in
    (x.0 ≡ ok tt) × Closed 3 before not_there before-Inv others x.1
subscribe_handler-Closed_example =
    subscribe_handler-Closed uuids (list_galleries_by_member uuids repository) (some claims) 3 3 300
      5 (2 ∷ 7 ∷ []) others canceled before not_there before-Inv caller_known others-fresh
