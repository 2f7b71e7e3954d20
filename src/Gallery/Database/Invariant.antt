-- ===== src/Gallery/Database/Invariant.antt =====
-- What joining and leaving keep true of the two tables.
use progetto_sdcc.Prelude.{
  ℕ, ◌≡◌, true, false, ◌&&◌, none, some, arith, ◌==◌, ==_iff, inl, inr, Bool-cases,
}
use progetto_sdcc.Gallery.{Gallery}
use progetto_sdcc.Gallery.Command.Tables.{Tables, set_member}

-- A gallery stands under its identifier, which is not Nil, and a member has a gallery.
pub record Consistent (t : Tables) : Type 0 where
  pub named : (id : ℕ) (g : Gallery) → t.galleries id ≡ some g → g.id ≡ id
  pub not_nil : t.galleries 0 ≡ none
  pub referenced :
      (id user : ℕ) → t.members id user ≡ true → (g : Gallery) × (t.galleries id ≡ some g)

pub set_member-Consistent :
    (i u : ℕ) (t : Tables) (g : Gallery)
    → t.galleries i ≡ some g
    → Consistent t
    → Consistent (set_member i u true t)
set_member-Consistent i u t g there c = record {
  named = c.named;
  not_nil = c.not_nil;
  referenced = λ id user m. elim (Bool-cases (id == i)) [
    | inl k ↦ (g, ground (arith, (==_iff id i).0 k))
    | inr k ↦ c.referenced id user (rw k at m)
  ];
}

pub unset_member-Consistent :
    (i u : ℕ) (t : Tables) → Consistent t → Consistent (set_member i u false t)
unset_member-Consistent i u t c = record {
  named = c.named;
  not_nil = c.not_nil;
  referenced = λ id user m. elim (Bool-cases ((id == i) && (user == u))) [
    | inl k ↦ absurd (ground arith)
    | inr k ↦ c.referenced id user (rw k at m)
  ];
}
