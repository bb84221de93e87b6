-- ===== src/Lib.antt =====
-- A model of service-json-keys, the service that holds the signing keys of a platform: it stores
-- them encrypted, rotates them by usage, signs with them, and serves their public halves.
--
-- Parts, from the bottom up:
--   Prelude       shared names, Boolean tests, lists, signed integers
--   Fault         Go errors: the sentinels of the packages, fmt.Errorf wrapping, errors.Is, panics
--   Encoding      encoding/hex and base64.RawURLEncoding of the Go standard library, executable
--   Clock         time.Time and time.Duration: Sub saturates at the bounds of an int64
--   Types         internal/core/jwk.go, internal/dao/pg.jwk.go, and the values of a
--                 context.Context
--   Externals     what the repository calls and does not hold, as one record of operations; the
--                 laws that proofs rest on are records beside it
--   World         the state: the rows of the table `keys`, the database's clock, the log, and the
--                 number of outside calls made; `Exec A` is an action on it
--   Config        internal/config/jwks.config.go and jwks.config.yaml; Config.Env is
--                 internal/config/env/env.go, Config.App app.config.go and the presets that the
--                 commands read (app.config.default.go, postgres.config.default.go,
--                 jobs.rotate_keys.config.go and its default)
--   Dao           internal/dao and the schema of internal/models/migrations: `search` is
--                 PgJwkSearch.Exec, `select_by_id` PgJwkSelect.Exec, `insert` PgJwkInsert.Exec,
--                 `delete` PgJwkDelete.Exec
--   MasterKey     internal/lib
--   Core          internal/core: Presets (the key generators of jwkPresets.go), Extract, Search
--                 (with jwkExportLocal.go), Select, Gen, RotateAll, Claims (claimsSign.go,
--                 claimsVerify.go), Sources (the key sources and plugins of jwkPresets.go); Steady
--                 has the rules by which an action is shown not to panic
--   Handlers      internal/handlers: Grpc, Rest, Health, Claims; Privacy, Status and Transports are
--                 about the two transports together
--   Lifecycle     no code: the table `keys` as a state machine, whose moves specify what the
--                 statements of internal/dao, and all that is built on them, may do to it; Retirement
--                 and Schedule are about a key's revocation under any such moves
--   Cmd           cmd: the start that the commands share; Rest (routes and requests of cmd/rest),
--                 Grpc (the services and the context interceptor of cmd/grpc), RotateKeys (one run
--                 of cmd/rotate-keys), Keys and Delivery (the job and the server together, and a client
--                 of it), Healthcheck (the two servers together), Migrations (the inventory and the
--                 run of cmd/migrations)
--   Client        pkg/go: client.go, claims.go and jwkExportGrpc.go; Dialled is about a client and
--                 the server of Cmd.Grpc together
--   Deployment    no code: a history of rotations under one master key, revocations and other
--                 calls, by an induction rule for its invariants; how many keys of a usage it
--                 leaves active, for how long there is one, and that a server's signer and a
--                 client are given the halves of the same pairs
--   Sample        concrete outside calls and data, with runs of the definitions
--
-- How they interact: a handler calls a service of Core, which calls Dao and then Core.Extract,
-- which calls Encoding and MasterKey. Core.RotateAll calls Core.Gen for each usage inside a
-- transactor. The commands of Cmd start from the settings of Config.Env, put the master key and
-- the database's pool into a context, and serve the handlers, or run the rotation, in it; the job
-- and the servers meet in the table and in the master key only. All errors travel as values of
-- Fault.Result; an action that fails leaves what it has written, and only the transactor takes it
-- back.
--
-- Reading of the source: Go's database/sql and bun are read by what the statements of the
-- repository mean on a list of rows. CURRENT_TIMESTAMP is the field `db_time`, which no operation
-- moves. A query may fail at any call. An instant is a number of nanoseconds since Go's zero time,
-- and storing it goes through `stamp`, since the columns are timestamp(0). Rows that tie under
-- ORDER BY keep the table's order. A Go map is a list of entries, iterated in order, and no order
-- is assumed of them; the configurations of the usages are values, so that a nil pointer among them,
-- which the code would follow, is not in the model. The outside answers by the number of the call, so that two readings of the
-- clock may differ. Loops are structural; nothing runs on fuel.
--
-- Not modelled: of the commands, the HTTP middleware, listening, shutting down, telemetry, and
-- what bun does with the migrations; tracing spans and log output (but for the log entry of an
-- oversized search and the lines of cmd/migrations), generated code, mocks, and the JavaScript
-- client. Key generation, the secretbox, the JSON form of a key, UUID parsing, the jwt library
-- with the caching of its key sources, the transactor, the dialling of grpc, the error
-- responses of httpf, chi's choice of a route, the parsers of the environment and the contexts
-- of golib are parameters.
pub mod Prelude
pub mod Fault
pub mod Encoding
pub mod Clock
pub mod Types
pub mod Externals
pub mod World
pub mod Config
pub mod Dao
pub mod MasterKey
pub mod Core
pub mod Handlers
pub mod Client
pub mod Lifecycle
pub mod Deployment
pub mod Cmd
mod Sample
