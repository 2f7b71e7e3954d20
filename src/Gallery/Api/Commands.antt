-- ===== src/Gallery/Api/Commands.antt =====
-- internal/gallery/api/grpc.go: the command handlers.
use progetto_sdcc.Prelude.{ℕ, String, Option}
use progetto_sdcc.Prelude.Action.{Action, ◌>>=◌, pure, lift}
use progetto_sdcc.Auth.{Claims}
use progetto_sdcc.Gallery.Command.{
  CommandRepository, Event, State, Command, creates, deletes, closes, joins, leaves, alerts,
  execute,
}
use progetto_sdcc.Gallery.Command as Command
use progetto_sdcc.Gallery.Query.{Uuids}
use progetto_sdcc.Gallery.Api.{
  caller_id_from_context, moderator_id_from_context, parse_uuid, to_proto_gallery, ProtoGallery,
}

-- A request of a command handler.
pub data Request : Type 0 where
  create_request : (name : String) (description : String) → Request
  delete_request close_request join_request leave_request : (gallery : String) → Request
  alert_request : (gallery : String) (body : String) → Request

module _ (uuids : Uuids) (repo : CommandRepository) where
  unfoldable pub create_gallery : Option Claims → String → String → Action (State repo) ProtoGallery
  create_gallery claims name description = do
    moderator ← lift (moderator_id_from_context claims)
    g ← Command.create_gallery repo name description moderator
    pure (to_proto_gallery uuids g)

  -- The caller and the identifier, which five handlers begin with.
  abbrev pub for_gallery :
      Option Claims
      → String
      → (ℕ → ℕ → Action (State repo) (Unit {0}))
      → Action (State repo) (Unit {0})
  for_gallery claims gallery command = do
    caller ← lift (caller_id_from_context claims)
    id ← lift (parse_uuid uuids gallery)
    command id caller

  unfoldable pub delete_gallery : Option Claims → String → Action (State repo) (Unit {0})
  delete_gallery claims gallery = for_gallery claims gallery (Command.delete_gallery repo)

  unfoldable pub close_gallery : Option Claims → String → Action (State repo) (Unit {0})
  close_gallery claims gallery = for_gallery claims gallery (Command.close_gallery repo)

  unfoldable pub join_gallery : Option Claims → String → Action (State repo) (Unit {0})
  join_gallery claims gallery = for_gallery claims gallery (Command.join_gallery repo)

  unfoldable pub leave_gallery : Option Claims → String → Action (State repo) (Unit {0})
  leave_gallery claims gallery = for_gallery claims gallery (Command.leave_gallery repo)

  unfoldable pub send_moderator_alert :
      Option Claims → String → String → Action (State repo) (Unit {0})
  send_moderator_alert claims gallery body =
      for_gallery claims gallery (λ id caller. Command.send_moderator_alert repo id caller body)

  unfoldable pub serve : Option Claims → Request → Action (State repo) (Unit {0})
  unfolding create_gallery delete_gallery close_gallery join_gallery leave_gallery
      send_moderator_alert
  serve claims (create_request name description) = do
    g ← create_gallery claims name description
    pure tt
  serve claims (delete_request gallery) = delete_gallery claims gallery
  serve claims (close_request gallery) = close_gallery claims gallery
  serve claims (join_request gallery) = join_gallery claims gallery
  serve claims (leave_request gallery) = leave_gallery claims gallery
  serve claims (alert_request gallery body) = send_moderator_alert claims gallery body
