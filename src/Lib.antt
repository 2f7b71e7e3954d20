-- ===== src/Lib.antt =====
-- PhotoGallery, Go microservices over gRPC: a verification library of their own logic.
--
-- The program's parts. Users upload photos to galleries and are told of what happens in those
-- that they are members of. The gateway (internal/handlers) turns browser requests into gRPC
-- calls. The upload service (internal/upload) receives a photo as a stream of chunks, asks the
-- gallery service through a circuit breaker whether the caller may upload, stores the photo, keeps
-- a record and publishes an event. The gallery service (internal/gallery) keeps galleries and
-- their members, with commands and queries in packages of their own, and publishes events. The
-- notification service (internal/notification) consumes the events, turns them into notifications
-- and delivers those to the connections of its registry.
--
-- The files, and what they model:
--   CircuitBreaker: internal/upload/circuitbreaker.go. `admit` and `settle` are the two critical
--     sections of `Call`, `call` is `Call` alone; Interleaving has any number of calls as a step
--     relation whose steps are the critical sections.
--   Registry: internal/notification/registry.go. A client is an object on a heap, since the three
--     maps share it; one function for each method. `Notify` is a snapshot (`targets`) and the sends
--     (`deliver`), between which other calls may run.
--   Auth: internal/auth/auth.go, with the signing of tokens in Tokens and `AuthFuncOverride` of the
--     three servers (internal/upload/api/grpc.go, internal/gallery/api/grpc.go and
--     internal/user/api/grpc.go) in Overrides.
--   Upload.Stream, Upload.Photo and Upload.Listing: internal/upload/api/grpc.go. `receive` is the
--     loop over the chunks, `upload_photo` the whole handler, `list_uploads` the listing.
--     Upload.Photo.UnknownGallery puts the gallery server over its database behind the breaker.
--   Upload.Repository: internal/upload/repository.go, the repository in memory. Upload.Postgres:
--     internal/upload/postgres.go, the one in Postgres.
--   Gallery.Command, Gallery.Query, Gallery.Api and Gallery.Api.Commands:
--     internal/gallery/command/service.go, query/service.go and api/grpc.go, a function for each
--     method. Gallery.Command.Interleaving splits a command into its checks and its write, between
--     which others run.
--   Gallery.Database: internal/gallery/command/repository.go (Commands) and query/repository.go
--     (Queries), over the statements that they make of GORM; Meaning says what the statements do to
--     the tables of Gallery.Command.Tables.
--   Gallery.Events: internal/gallery/command/events.go; Delivered follows an event to the consumer.
--   Subscription: `resolveMemberships` of internal/notification/grpc.go; Session has the handler
--     `Subscribe`, in which the calls that others make meanwhile are a list.
--   Gateway: internal/handlers. `upload_photo` gives the messages of an upload where no `Send` fails;
--     Uploading has the whole handler `UploadPhoto`, Listing `ListUploads` and Streaming the event
--     stream of notification.go. Http has the responses.
--   Consumer: `Consume`, `handle` and `buildNotification` of internal/notification/consumer.go.
--   Broadcaster: internal/notification/broadcast.go; Cluster composes it with the consumer and the
--     registries of several replicas.
--   Upload.Publisher: internal/upload/events/publisher.go. A run of a method returns or is blocked,
--     since the mutex is not reentrant.
--   User: `Register` and `Login` of internal/user/api/grpc.go; Database has
--     internal/user/repository/postgres.go and the password functions of internal/auth/auth.go.
--   Programs: cmd/user, cmd/gallery, cmd/upload and cmd/notification with internal/upload/config.go
--     and the db.go files, as the resources that a program opens before it serves;
--     Programs.Gateway: cmd/gateway; Programs.Storage: internal/upload/storage/minio.go.
--   LoadTest: cmd/testgallery (Galleries, Galleries.Workers) and cmd/testupload (Uploads), with
--     their requests (Client), Statistics and Report.
--   Prelude: numbers, lists, errors, dictionaries and actions, which the others share.
--
-- How it is modelled. A UUID is the number that its bytes spell, Nil is 0; bytes are numbers;
-- times are nanoseconds. Integers are unbounded: the counts and sizes of the code are bounded by
-- the photos and galleries that there are. Only the percentages of the load generators, which can
-- be any flags, are added up as the code does it, in words of 64 bits. An error is a value with its gRPC code and its text. A
-- handler that changes state is an action from a state to a result and a state; log lines are left
-- out. What the code calls outside the repository is a parameter: the database, the object
-- storage, the clock, JSON, strconv, the UUID library and the streams. Where a theorem relies on
-- them, a record of laws states what they do (Laws, ByMember, WritesUuids, WritesNumbers), and the
-- tests give one that obeys. A goroutine that publishes an event is an event appended to a list.
--
-- Fuel. `resolve_memberships` and the client `follow_pages` take fuel for the pages; the number of
-- rows and one more are enough, as their theorems say. A worker of a load generator takes fuel for
-- its rounds; as many as intervals fit before it stops, and one more, are enough for a moderator's.
--
-- What is not modelled: the routes of the gateway and of the gRPC servers, and the main functions of
-- the load generators, which start their workers; the GORM, AMQP, Redis, MinIO, JWT and bcrypt
-- clients and the generated code, which are parameters; floating point numbers, of which the index
-- of a percentile is a parameter; the `Close` of the repositories and `HealthCheck`; and handlers
-- that run at the same time other than in the breaker, the registry and the gallery commands.
pub mod Prelude
pub mod CircuitBreaker
pub mod Registry
pub mod Auth
pub mod Upload
pub mod Gallery
pub mod Subscription
pub mod Gateway
pub mod Consumer
pub mod User
pub mod Broadcaster
pub mod LoadTest
pub mod Programs
