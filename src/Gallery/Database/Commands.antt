-- ===== src/Gallery/Database/Commands.antt =====
-- internal/gallery/command/repository.go: GormCommandRepository.
use progetto_sdcc.Prelude.{ℕ, Result}
use progetto_sdcc.Gallery.{Gallery}
use progetto_sdcc.Gallery.Command.{CommandRepository}
use progetto_sdcc.Gallery.Database.{Db}

module _ (db : Db) where
  open db use {World}

  unfoldable pub create_gallery : Gallery → World → Result Gallery × World
  create_gallery gallery w = db.create_gallery gallery w

  unfoldable pub get_gallery : ℕ → World → Result Gallery × World
  get_gallery id w = (db.first_gallery id w, w)

  unfoldable pub update_gallery : Gallery → World → Result (Unit {0}) × World
  update_gallery g w = db.save_gallery g w

  unfoldable pub delete_gallery : ℕ → World → Result (Unit {0}) × World
  delete_gallery id w = db.delete_gallery id w

  -- The time of joining is left at zero.
  unfoldable pub join_gallery : ℕ → ℕ → World → Result (Unit {0}) × World
  join_gallery id user w =
      db.create_member (record { gallery_id = id; user_id = user; joined_at = 0 }) w

  unfoldable pub leave_gallery : ℕ → ℕ → World → Result (Unit {0}) × World
  leave_gallery id user w = db.delete_member id user w

  -- `NewCommandRepository`, as the interface that the service takes.
  abbrev pub command_repository : CommandRepository
  command_repository = record {
    World = World;
    create_gallery = create_gallery;
    get_gallery = get_gallery;
    update_gallery = update_gallery;
    delete_gallery = delete_gallery;
    join_gallery = join_gallery;
    leave_gallery = leave_gallery;
    now = db.now;
    new_uuid = db.new_uuid;
  }
