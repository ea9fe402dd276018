-- ===== src/Lib.antt =====
-- hockey-libs: the libraries that the services of HockeyNights share.
--
-- Parts
--   Prelude            shared tests, lists, integers, string dictionaries and durations.
--   Errors             Go errors as a tree and the walk of errors.As and errors.Is over it;
--                      apperr/apperr.go's Kind and Error, gRPC statuses, *pgconn.PgError.
--   Format             what the packages use of fmt, strings and encoding/base64, on bytes.
--   Apperr             apperr/apperr.go: the domain errors.
--   Postgresql         postgresql/: ErrorMap is errors.go, database errors to domain errors; Tx is
--                      tx.go, functions in a transaction; Config is config.go; Pool is db.go, the
--                      pool and its options.
--   Migrate            migrate/migrate.go: the commands over the migrations of a service.
--   Redisclient        redisclient/redis.go: the options of a Redis client.
--   Dotenv             config/config.go: settings from files and the environment.
--   Secret             secret/secret.go: tokens, codes and hashes.
--   Token              token/: the claims; Manager is token.go, issuing and parsing, and Manager.Keys
--                      the keys that it generates.
--   Logger             logger/: logger.go, and the handler of context_handler.go.
--   Observability      observability/tracing.go: the set-up and the end of tracing.
--   Healthcheck        cmd/healthcheck/main.go: the exit code of the command.
--   Ratelimit          ratelimit/ratelimit.go: the limit of calls by key and window.
--   Password           password/argon2id.go: hashes of passwords, as texts and their reading.
--   Grpcserver         grpcserver/: Context is what interceptors read of a context (metadataValue of
--                      interceptors.go, token/context.go); Reply what the handling of a request
--                      leaves; ErrorMap is errors.go, domain errors to gRPC statuses; Interceptors is
--                      interceptors.go, metrics.go and the interceptors of errors.go; RequestId is
--                      requestid.go with requestid/requestid.go; Validate is validate.go; Auth is
--                      auth.go and internal.go; ClientIp is clientip.go, the address behind trusted
--                      proxies; RateLimit is ratelimit.go; Loopback is loopback.go; Server is
--                      server.go, the chain that it installs and its life.
--   Grpcclient         grpcclient/: Token is token.go, Service is service.go with the cache of the
--                      service token, Interceptors is interceptors.go, Client is client.go.
--   Grpcgateway        grpcgateway/: gateway.go, and Cors is cors.go.
--   Httpserver         httpserver/: server.go, and Probes is ops.go.
--   Filestorage        filestorage/: Image is image.go, Client is filestorage.go.
--   Outbox             outbox/: Terminal is terminal.go; Queue the messages and the interfaces Queue
--                      and Counter of worker.go; Config its settings, withDefaults and validate;
--                      Repository is outbox.go; Worker is the rest of worker.go and metrics.go.
--                      Repository.Life is the life of one message, against which the calls of
--                      outbox.go and the rounds of worker.go are checked.
--   Runner             runner/runner.go: components that run together, and the signals that stop them.
-- A repository wraps database errors (Postgresql) into domain errors (Apperr), the handlers of a
-- server return them, and the server's interceptor shows them to the client (Grpcserver). The worker
-- (Outbox.Worker) runs over any record of the operations of Queue; Outbox.Repository.repository is
-- the one that the program has. Server.serve puts the interceptors together as newGRPCServer does,
-- and Client.call those of a client; a service token (Grpcclient.Service) is one that a manager
-- (Token.Manager) issues and the manager of another service with the same settings parses.
--
-- How the code is modelled
--   A nil error is `none`. A `*Error` that is boxed in an `error` is a value: the code never changes
--   one that it has returned.
--   A method of Repository is its SQL statement as a function on a list of rows, with the columns
--   and the primary key of outbox/migrations/20260813000000_outbox.sql. What the database adds to a
--   call is a record Call: its clock, the rows that other transactions lock, what jsonb makes of a
--   payload, and how the call fails, before or after its effect. Rows of one instant are claimed in
--   the table's order. A value that does not fit a smallint fails the statement.
--   Durations and instants are integers in nanoseconds. int64 arithmetic wraps around (wrap64);
--   int32(d.Seconds()) is the quotient rounded towards zero, and a count outside int32 is converted
--   by the parameter `convert`. The rounding of float64 is not modelled: it is exact below 2 ^ 53.
--   The goroutines of a batch make one call of the queue each; a run of a batch is these calls in
--   the order in which they are made. Run is taken round by round over a list of what meets each
--   round: no fuel is involved, every function is structural.
--   Runner.Run is a step relation over what can happen while it waits, with a clock; the life of a
--   server and the wait for a connection are functions of what meets them. A request is a function from its context
--   to a Reply, the headers, log lines and counts that it leaves and how it ends; an interceptor is a
--   function between these, the same for calls and for streams.
--   Hashes of passwords are lists of bytes. Decimal numbers are printed with one more unit of fuel
--   than their value, which is more than they have digits.
--   Other people's code is a record of its functions, with their documented behaviour where a theorem
--   needs it: StatusLib for the gRPC status package, Jwt for the JWT library with PEM and x509, Netip
--   for net and net/netip, Validator for protovalidate, Redis, Argon2, Codec for the image packages,
--   Minio, GoRedis, Files for os.Stat and godotenv, Urls for net/url, HostPort for net, KeyMaker for
--   ed25519 with x509 and PEM, Pgxpool, Goose, Slog, Otel. Counts says of Pgxpool and of Goose which
--   of their calls open or close something.
--   strings.ToLower is written out for comparisons with ASCII words.
--   Jwt's law is that a parser accepts a token that was signed with a matching key, if method, issuer
--   and audiences are the expected ones, one audience at least is not empty, if there are any, and the
--   instant is within the token's times with the leeway. Redis keeps the window of a limit in whole
--   seconds, as go-redis sends it. A commit of a Database ends its transaction also where it fails, and
--   may then have taken effect. Of the dial options of a client only credentials are told apart. Wire is what grpc makes of outgoing metadata.
--
-- Not modelled: texts and durations in log lines, the registration of metrics and their gauge and
-- histogram, observability/metrics.go, the embedded migrations, listeners and the other I/O of the
-- packages, and panics but those of handlers and of functions in a transaction.
mod Prelude
pub mod Errors
pub mod Format
pub mod Apperr
pub mod Token
pub mod Ratelimit
pub mod Postgresql
pub mod Grpcserver
pub mod Grpcclient
pub mod Grpcgateway
pub mod Dotenv
pub mod Filestorage
pub mod Healthcheck
pub mod Httpserver
pub mod Logger
pub mod Migrate
pub mod Observability
pub mod Outbox
pub mod Password
pub mod Redisclient
pub mod Runner
pub mod Secret
