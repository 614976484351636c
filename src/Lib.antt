-- ===== src/Lib.antt =====
-- Verification of mini-wallet: a wallet service, an auth service and a notification service in Go,
-- which keep their tables in MySQL and talk to each other over RabbitMQ and gRPC. Paths are from
-- the repository's root.
--
-- How the parts interact. The auth service writes an event into its outbox table in the transaction
-- that registers a user; an outbox worker claims pending events, publishes them and marks them. The
-- wallet service receives the event, records it in its inbox table and opens a wallet; later it
-- transfers money between wallets. A message whose handler fails goes round a retry queue and ends
-- in a dead-letter queue. Errors go up through the layers as rich errors, which decide what a
-- client sees.
--
-- What models what:
--   RichError, RichError.Codes   pkg/richerror (richerror.go; http.go and grpc.go)
--   Sql                          database/sql and the MySQL driver as the services see them: the
--                                state is a `World` of committed tables, an open transaction and the
--                                errors that the next calls report
--   Inbox.Table, .Repository,    internal/wallet/repository/event.go,
--   .Service, .Handling          internal/wallet/service/event/service.go and `Handle` of
--                                internal/wallet/subscriber/handler.go; the notification service
--                                has the same code
--   Wallet.Tables, .Repository,  internal/wallet/service/wallet, internal/wallet/repository/wallet.go
--   .Service, .Subscriber        and the rest of internal/wallet/subscriber/handler.go
--   Outbox.Table, .Repository,   internal/auth/repository/outbox.go, internal/auth/service/outbox and
--   .Service, .Worker            internal/auth/workers/outbox
--   Auth.Outbox                  `ProcessEvent` of internal/auth/service/outbox/service.go
--   Auth.Tables                  internal/auth/service/auth/entity.go, params.go and the migrations
--   Auth.Repository              internal/auth/repository/auth.go
--   Auth.Service                 internal/auth/service/auth and pkg/event
--   Auth.Http, Auth.Grpc         internal/auth/delivery; the middlewares of pkg/middleware that read
--                                the headers of a device
--   AccessToken                  pkg/user_access_token, pkg/middleware/auth.go and the handler that
--                                verifies a token
--   Notification                 the notification service's instances of the inbox and the outbox;
--   Notification.Subscriber      internal/notification/subscriber/handler.go and `ProcessEvent` of
--                                internal/notification/service/outbox/service.go
--   Notification.Tickets         internal/notification/service/notification/service.go and
--                                internal/notification/delivery/http/handler.go
--   Wallet.Http                  internal/wallet/delivery/http/handler.go
--   Sender                       pkg/sender/factory.go
--   Hub                          pkg/hub/hub.go, as a system of steps that interleave
--   Rabbitmq.Names, .Headers,    pkg/rabbitmq (helpers.go, topology.go, publisher.go, worker.go,
--   .Topology, .Publisher,       subscriber.go, connection.go); the connection is a system of
--   .Worker, .Subscriber,        steps that interleave
--   .Connection
--   Grpc.Interceptors,           pkg/grpc/interceptors, and pkg/grpc/server.go and client.go
--   Grpc.Credentials
--   App                          `Start` of internal/auth/app.go, internal/notification/app.go and
--                                internal/wallet/app.go, as goroutines that interleave
-- The definitions have the names of the Go functions. The other modules hold proofs:
-- Sql.Transactions, Sql.Attempts, Sql.Commits and Sql.Calls the rules by which operations are
-- followed whichever calls fail, Sql.Steps those where every call goes through, and the modules
-- named after what they prove; Wallet.Moves and Outbox.Soundness also define what a ledger and an
-- outbox promise. Base holds lists, integers and Boolean tests.
--
-- How the code is rendered. A statement of SQL is a function on tables that are lists of rows; keys
-- and the ENUM types are those of the migrations. A call that the list of faults makes fail has had
-- no effect; theorems that do not mention the list hold for every list. One operation is followed
-- at a time, since the locking reads keep others out of a transaction's rows. Outbox.Locks
-- follows the claims of several workers at once, with the rows that they lock and skip. A publication
-- counts as made where the AMQP library's call returns nil; the channels are not in confirm mode, so
-- whether the broker has the message is not known to the code and not modelled. UUIDs, ids and hashes
-- are only compared and are numbers; times are seconds; int64 amounts are integers, and an UPDATE
-- that leaves the range of BIGINT is refused, as by MySQL. Texts of a unique key are compared as they
-- stand, where MySQL's collation may take more of them for equal. The goroutines of a batch each
-- publish and note their event under a lock, so a batch is followed in any order of its events;
-- the ticks of a worker are followed one at a time, so none comes in the middle of a batch. The only
-- bound on steps is the number of deliveries followed by `Rabbitmq.Settled.deliveries`, and one
-- more than `MaxRetry` are enough.
--
-- Not modelled: the senders themselves, which call remote services, what the hub keeps in redis;
-- wiring, servers, configuration, logging and generated code. The decoders and encoders
-- of protobuf and JSON, bcrypt, the hashes, the JWT library, the client of redis, random bytes and
-- the AMQP library's error type are parameters.
pub mod Base
pub mod RichError
pub mod Sql
pub mod Hub
pub mod Grpc
pub mod Inbox
pub mod Rabbitmq
pub mod Outbox
pub mod AccessToken
pub mod App
pub mod Auth
pub mod Notification
pub mod Sender
pub mod Wallet
