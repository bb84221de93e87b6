-- ===== src/Config/App.antt =====
-- internal/config/app.config.go, app.config.default.go, postgres.config.default.go and
-- jobs.rotate_keys.config*.go: the configuration of the commands, from the settings of the process.
use Prim.Native.String
use service_json_keys.Prelude.{String, Bool, not, List, str_eq, if◌then◌else◌}
use service_json_keys.Prelude.Int.{ℤ}
use service_json_keys.Clock.{Duration}
use service_json_keys.Config.{KeysConfig, jwk_preset_default}
use service_json_keys.Config.Env.{Settings, seconds}

pub record RestCors : Type 0 where
  pub allowed_origins : List String
  pub allowed_headers : List String
  pub allow_credentials : Bool
  pub max_age : ℤ

pub record Main : Type 0 where
  pub name : String
  pub master_key : String

pub record Grpc : Type 0 where
  pub port : ℤ
  pub ping : Duration

pub record RestTimeouts : Type 0 where
  pub read : Duration
  pub read_header : Duration
  pub write : Duration
  pub idle : Duration
  pub request : Duration

pub record Rest : Type 0 where
  pub port : ℤ
  pub timeouts : RestTimeouts
  pub max_request_size : ℤ
  pub cors : RestCors

-- The presets of golib's otel and logging packages that the configuration chooses from.
pub data OtelConfig : Type 0 where
  otel_disabled : OtelConfig
  otel_local : Duration → OtelConfig
  otel_gcloud : String → Duration → OtelConfig

pub data Log : Type 0 where
  log_local : Log
  log_gcloud : String → Log

pub data RpcConfig : Type 0 where
  grpc_local : RpcConfig
  grpc_gcloud : String → RpcConfig

pub data HttpConfig : Type 0 where
  http_local : Log → HttpConfig
  http_gcloud : Log → HttpConfig

-- postgrespresets.Default, by the fields that the configuration sets.
pub record PostgresConfig : Type 0 where
  pub dsn : String
  pub max_open_conns : ℤ
  pub max_idle_conns : ℤ

pub record App : Type 0 where
  pub app : Main
  pub grpc : Grpc
  pub rest : Rest
  pub otel : OtelConfig
  pub logger : Log
  pub grpc_logger : RpcConfig
  pub rest_logger : HttpConfig
  pub postgres : PostgresConfig

pub record JobRotateKeys : Type 0 where
  pub app : Main
  pub jwk : KeysConfig
  pub otel : OtelConfig
  pub postgres : PostgresConfig

-- OtelFlushTimeout
abbrev pub otel_flush_timeout : Duration
otel_flush_timeout = seconds 2

module _ (env : Settings) where
  -- newPostgresPreset
  abbrev pub new_postgres_preset : PostgresConfig
  new_postgres_preset = record {
    dsn = env.postgres_dsn;
    max_open_conns = env.postgres_max_open_conns;
    max_idle_conns = env.postgres_max_idle_conns;
  }

  -- The chain of lo.If that both presets have.
  abbrev pub otel_preset : OtelConfig
  otel_preset =
      if not env.otel
      then otel_disabled
      else if str_eq env.gcloud_project_id ""
      then otel_local otel_flush_timeout
      else otel_gcloud env.gcloud_project_id otel_flush_timeout

  -- AppPresetDefault
  unfoldable pub app_preset_default : App
  app_preset_default = record {
    app = record { name = env.app_name; master_key = env.app_master_key };
    grpc = record { port = env.grpc_port; ping = env.grpc_ping };
    rest = record {
      port = env.rest_port;
      timeouts = record {
        read = env.rest_timeout_read;
        read_header = env.rest_timeout_read_header;
        write = env.rest_timeout_write;
        idle = env.rest_timeout_idle;
        request = env.rest_timeout_request;
      };
      max_request_size = env.rest_max_request_size;
      cors = record {
        allowed_origins = env.cors_allowed_origins;
        allowed_headers = env.cors_allowed_headers;
        allow_credentials = env.cors_allow_credentials;
        max_age = env.cors_max_age;
      };
    };
    otel = otel_preset;
    logger =
        if str_eq env.gcloud_project_id "" then log_local else log_gcloud env.gcloud_project_id;
    grpc_logger =
        if str_eq env.gcloud_project_id "" then grpc_local else grpc_gcloud env.gcloud_project_id;
    rest_logger =
        if str_eq env.gcloud_project_id ""
        then http_local log_local
        else http_gcloud (log_gcloud env.gcloud_project_id);
    postgres = new_postgres_preset;
  }

  -- JobRotateKeysPresetDefault
  unfoldable pub job_rotate_keys_preset_default : JobRotateKeys
  job_rotate_keys_preset_default = record {
    app = record {
      name = String.◌++◌ env.app_name "-job-rotate-keys";
      master_key = env.app_master_key;
    };
    jwk = jwk_preset_default;
    otel = otel_preset;
    postgres = new_postgres_preset;
  }
