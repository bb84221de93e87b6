-- ===== src/Handlers/Health.antt =====
-- internal/handlers/rest.health.go and grpc.status.go: the state of the database connection, as
-- each of the two transports reports it.
use service_json_keys.Prelude.{◌+◌, String, Option, none, some}
use service_json_keys.Fault.{Result, ok, err, other}
use service_json_keys.Types.{Context, Handle, pool, transaction}
use service_json_keys.Externals.{Externals}
use service_json_keys.World.{World, Exec, pure, raise}

-- `pgdb.Ping()`
abbrev pub ping_database : Externals → Exec (Unit {0})
ping_database x w = elim (x.ping_fault w.step) [
  | none ↦ (ok tt, record w { step = w.step + 1 })
  | some message ↦ (err (other message), record w { step = w.step + 1 })
]

-- RestHealthStatusUp and RestHealthStatusDown
abbrev pub rest_health_status_up : String
rest_health_status_up = "up"

abbrev pub rest_health_status_down : String
rest_health_status_down = "down"

pub record RestHealthStatus : Type 0 where
  pub status : String

-- NewRestHealthStatus, which drops the error.
unfoldable pub new_rest_health_status : Result (Unit {0}) → RestHealthStatus
new_rest_health_status (ok _) = record { status = rest_health_status_up }
new_rest_health_status _ = record { status = rest_health_status_down }

-- RestHealth.reportPostgres, by what the context holds: a transaction is no `*bun.DB`, cannot be
-- assessed, and is reported without an error.
unfoldable pub rest_report_postgres : Externals → Option Handle → Exec (Unit {0})
rest_report_postgres x none = raise (other "no postgres in context")
rest_report_postgres x (some transaction) = pure tt
rest_report_postgres x (some pool) = ping_database x

-- RestHealth.ServeHTTP, by the entry "client:postgres" of its body.
unfoldable pub rest_health : Externals → Context → World → RestHealthStatus × World
unfolding rest_report_postgres new_rest_health_status
rest_health x ctx w =
    let (r, w') = rest_report_postgres x ctx.postgres w in (new_rest_health_status r, w')

-- The enumeration and the message of the proto.
pub data DependencyStatus : Type 0 where
  dependency_status_unspecified dependency_status_up dependency_status_down : DependencyStatus

pub record DependencyHealth : Type 0 where
  pub status : DependencyStatus

-- NewGrpcHealthStatus, which drops the error.
unfoldable pub new_grpc_health_status : Result (Unit {0}) → DependencyHealth
new_grpc_health_status (ok _) = record { status = dependency_status_up }
new_grpc_health_status _ = record { status = dependency_status_down }

-- GrpcStatus.reportPostgres, by what the context holds.
unfoldable pub grpc_report_postgres : Externals → Option Handle → Exec (Unit {0})
grpc_report_postgres x none = raise (other "no postgres in context")
grpc_report_postgres x (some transaction) = pure tt
grpc_report_postgres x (some pool) = ping_database x

-- GrpcStatus.Status, by the field of its message.
unfoldable pub grpc_status : Externals → Context → World → DependencyHealth × World
unfolding grpc_report_postgres new_grpc_health_status
grpc_status x ctx w =
    let (r, w') = grpc_report_postgres x ctx.postgres w in (new_grpc_health_status r, w')
