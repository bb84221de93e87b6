-- ===== src/Config/Env.antt =====
-- internal/config/env/env.go: the settings of the process, read from its environment once, at the
-- initialization of the package.
pub mod Defaults
use Prim.Native.String
use service_json_keys.Prelude.{ℕ, ◌*◌, ◌^◌, String, ◌≡◌, Bool, false, List, [], ◌∷◌}
use service_json_keys.Prelude.Int.{ℤ, pos}
use service_json_keys.Fault.{Result, ok, ◌>>=◌}
use service_json_keys.Clock.{Duration, second}

-- os.Getenv: a variable that is not set reads as the empty text.
abbrev pub Environment : Type 0
Environment = String → String

-- golib's config.LoadEnv, by the parser that it is given: the value of a text, or the default.
pub record LoadEnv : Type 0 where
  pub string_parser : String → String → Result String
  pub int_parser : String → ℤ → Result ℤ
  pub bool_parser : String → Bool → Result Bool
  pub duration_parser : String → Duration → Result Duration
  pub slice_parser : String → List String → Result (List String)

-- What is relied upon of it: the empty text gives the default.
pub record IsLoadEnv (load : LoadEnv) : Type 0 where
  pub no_string : (v : String) → load.string_parser "" v ≡ ok v
  pub no_int : (v : ℤ) → load.int_parser "" v ≡ ok v
  pub no_bool : (v : Bool) → load.bool_parser "" v ≡ ok v
  pub no_duration : (v : Duration) → load.duration_parser "" v ≡ ok v
  pub no_slice : (v : List String) → load.slice_parser "" v ≡ ok v

abbrev pub seconds : ℕ → Duration
seconds n = pos (n * second)

abbrev pub app_name_default : String
app_name_default = "service-json-keys"

abbrev pub grpc_port_default : ℤ
grpc_port_default = pos 8080

abbrev pub grpc_default_ping : Duration
grpc_default_ping = seconds 5

abbrev pub rest_port_default : ℤ
rest_port_default = pos 8080

abbrev pub rest_timeout_read_default : Duration
rest_timeout_read_default = seconds 15

abbrev pub rest_timeout_read_header_default : Duration
rest_timeout_read_header_default = seconds 3

abbrev pub rest_timeout_write_default : Duration
rest_timeout_write_default = seconds 30

abbrev pub rest_timeout_idle_default : Duration
rest_timeout_idle_default = seconds 60

abbrev pub rest_timeout_request_default : Duration
rest_timeout_request_default = seconds 60

abbrev pub rest_max_request_size_default : ℤ
rest_max_request_size_default = pos (2 * 2 ^ 20)

abbrev pub cors_allow_credentials_default : Bool
cors_allow_credentials_default = false

abbrev pub cors_max_age_default : ℤ
cors_max_age_default = pos 3600

abbrev pub postgres_max_open_conns_default : ℤ
postgres_max_open_conns_default = pos 20

abbrev pub postgres_max_idle_conns_default : ℤ
postgres_max_idle_conns_default = pos 20

abbrev pub cors_allowed_origins_default : List String
cors_allowed_origins_default = "*" ∷ []

abbrev pub cors_allowed_headers_default : List String
cors_allowed_headers_default = "*" ∷ []

-- The variables of the package.
pub record Settings : Type 0 where
  pub postgres_dsn : String
  pub postgres_max_open_conns : ℤ
  pub postgres_max_idle_conns : ℤ
  pub app_name : String
  pub app_master_key : String
  pub otel : Bool
  pub grpc_port : ℤ
  pub grpc_url : String
  pub grpc_ping : Duration
  pub rest_port : ℤ
  pub rest_timeout_read : Duration
  pub rest_timeout_read_header : Duration
  pub rest_timeout_write : Duration
  pub rest_timeout_idle : Duration
  pub rest_timeout_request : Duration
  pub rest_max_request_size : ℤ
  pub cors_allowed_origins : List String
  pub cors_allowed_headers : List String
  pub cors_allow_credentials : Bool
  pub cors_max_age : ℤ
  pub gcloud_project_id : String

-- The name of the variable that holds the prefix.
abbrev pub prefix_name : String
prefix_name = "SERVICE_JSON_KEYS_ENV_PREFIX"

-- getEnv
abbrev pub get_env : Environment → String → String
get_env getenv name = getenv (String.◌++◌ (getenv prefix_name) name)

-- The initialization of the variables, by what getEnv reads.
unfoldable pub settings_of : LoadEnv → (String → String) → Result Settings
settings_of load read = do
  postgres_max_open_conns ←
      load.int_parser (read "POSTGRES_MAX_OPEN_CONNS") postgres_max_open_conns_default
  postgres_max_idle_conns ←
      load.int_parser (read "POSTGRES_MAX_IDLE_CONNS") postgres_max_idle_conns_default
  app_name ← load.string_parser (read "APP_NAME") app_name_default
  otel ← load.bool_parser (read "OTEL") false
  grpc_port ← load.int_parser (read "GRPC_PORT") grpc_port_default
  grpc_ping ← load.duration_parser (read "GRPC_PING") grpc_default_ping
  rest_port ← load.int_parser (read "REST_PORT") rest_port_default
  rest_timeout_read ← load.duration_parser (read "REST_TIMEOUT_READ") rest_timeout_read_default
  rest_timeout_read_header ←
      load.duration_parser (read "REST_TIMEOUT_READ_HEADER") rest_timeout_read_header_default
  rest_timeout_write ← load.duration_parser (read "REST_TIMEOUT_WRITE") rest_timeout_write_default
  rest_timeout_idle ← load.duration_parser (read "REST_TIMEOUT_IDLE") rest_timeout_idle_default
  rest_timeout_request ←
      load.duration_parser (read "REST_TIMEOUT_REQUEST") rest_timeout_request_default
  rest_max_request_size ←
      load.int_parser (read "REST_MAX_REQUEST_SIZE") rest_max_request_size_default
  cors_allowed_origins ←
      load.slice_parser (read "REST_CORS_ALLOWED_ORIGINS") cors_allowed_origins_default
  cors_allowed_headers ←
      load.slice_parser (read "REST_CORS_ALLOWED_HEADERS") cors_allowed_headers_default
  cors_allow_credentials ←
      load.bool_parser (read "REST_CORS_ALLOW_CREDENTIALS") cors_allow_credentials_default
  cors_max_age ← load.int_parser (read "REST_CORS_MAX_AGE") cors_max_age_default
  ok (record {
    postgres_dsn = read "POSTGRES_DSN";
    postgres_max_open_conns = postgres_max_open_conns;
    postgres_max_idle_conns = postgres_max_idle_conns;
    app_name = app_name;
    app_master_key = read "APP_MASTER_KEY";
    otel = otel;
    grpc_port = grpc_port;
    grpc_url = read "GRPC_URL";
    grpc_ping = grpc_ping;
    rest_port = rest_port;
    rest_timeout_read = rest_timeout_read;
    rest_timeout_read_header = rest_timeout_read_header;
    rest_timeout_write = rest_timeout_write;
    rest_timeout_idle = rest_timeout_idle;
    rest_timeout_request = rest_timeout_request;
    rest_max_request_size = rest_max_request_size;
    cors_allowed_origins = cors_allowed_origins;
    cors_allowed_headers = cors_allowed_headers;
    cors_allow_credentials = cors_allow_credentials;
    cors_max_age = cors_max_age;
    gcloud_project_id = read "GCLOUD_PROJECT_ID";
  })

-- The initialization of the package.
unfoldable pub load_settings : LoadEnv → Environment → Result Settings
load_settings load getenv = settings_of load (get_env getenv)
