-- ===== src/Config/Env/Defaults.antt =====
-- What the settings depend on.
use Prim.Native.String
use service_json_keys.Prelude.{
  refl, Bool, ◌||◌, Bool-cases, inl, inr, str_eq, eq_iff, sym, String, ◌≡◌, ap, ◌∙◌, true, false,
  List, [], ◌∷◌, All,
}
use mathlib.Core.Path.{fun_ext}
use text.Mathlib.Text.{starts_with}
use text.Mathlib.TextPositions.{starts_with-append}
use service_json_keys.Fault.{ok}
use service_json_keys.Config.Env.{
  Environment, LoadEnv, IsLoadEnv, Settings, prefix_name, get_env, settings_of, load_settings,
  app_name_default, grpc_port_default, grpc_default_ping, rest_port_default,
  rest_timeout_read_default, rest_timeout_read_header_default, rest_timeout_write_default,
  rest_timeout_idle_default, rest_timeout_request_default, rest_max_request_size_default,
  cors_allow_credentials_default, cors_max_age_default, postgres_max_open_conns_default,
  postgres_max_idle_conns_default, cors_allowed_origins_default, cors_allowed_headers_default,
}

-- The names of the variables, without the prefix.
abbrev pub variables : List String
variables =
    "POSTGRES_DSN" ∷ "POSTGRES_MAX_OPEN_CONNS" ∷ "POSTGRES_MAX_IDLE_CONNS" ∷ "APP_NAME"
    ∷ "APP_MASTER_KEY" ∷ "OTEL" ∷ "GRPC_PORT" ∷ "GRPC_URL" ∷ "GRPC_PING" ∷ "REST_PORT"
    ∷ "REST_TIMEOUT_READ" ∷ "REST_TIMEOUT_READ_HEADER" ∷ "REST_TIMEOUT_WRITE" ∷ "REST_TIMEOUT_IDLE"
    ∷ "REST_TIMEOUT_REQUEST" ∷ "REST_MAX_REQUEST_SIZE" ∷ "REST_CORS_ALLOWED_ORIGINS"
    ∷ "REST_CORS_ALLOWED_HEADERS" ∷ "REST_CORS_ALLOW_CREDENTIALS" ∷ "REST_CORS_MAX_AGE"
    ∷ "GCLOUD_PROJECT_ID" ∷ []

-- The settings of a process whose variables are not set.
abbrev pub default_settings : Settings
default_settings = record {
  postgres_dsn = "";
  postgres_max_open_conns = postgres_max_open_conns_default;
  postgres_max_idle_conns = postgres_max_idle_conns_default;
  app_name = app_name_default;
  app_master_key = "";
  otel = false;
  grpc_port = grpc_port_default;
  grpc_url = "";
  grpc_ping = grpc_default_ping;
  rest_port = rest_port_default;
  rest_timeout_read = rest_timeout_read_default;
  rest_timeout_read_header = rest_timeout_read_header_default;
  rest_timeout_write = rest_timeout_write_default;
  rest_timeout_idle = rest_timeout_idle_default;
  rest_timeout_request = rest_timeout_request_default;
  rest_max_request_size = rest_max_request_size_default;
  cors_allowed_origins = cors_allowed_origins_default;
  cors_allowed_headers = cors_allowed_headers_default;
  cors_allow_credentials = cors_allow_credentials_default;
  cors_max_age = cors_max_age_default;
  gcloud_project_id = "";
}

abbrev is_variable : String → List String → Bool
is_variable name [] = false
is_variable name (n ∷ names) = str_eq n name || is_variable name names

unset :
    (read : String → String) (name : String) (names : List String)
    → All (λ n. read n ≡ "") names
    → is_variable name names ≡ true
    → read name ≡ ""
unset read name [] h listed = cc
unset read name (n ∷ names) (first, rest) listed = elim (Bool-cases (str_eq n name)) [
  | inl e ↦ ap read (sym ((eq_iff n name).0 e)) ∙ first
  | inr e ↦ unset read name names rest (rw e at listed)
]

-- When none of the variables is set, under whatever prefix, the process has the default settings.
pub load_settings_defaults :
    (load : LoadEnv) (getenv : Environment)
    → IsLoadEnv load
    → All (λ name. get_env getenv name ≡ "") variables
    → load_settings load getenv ≡ ok default_settings
unfolding load_settings settings_of
load_settings_defaults load getenv l h =
    let absent : (name : String) → is_variable name variables ≡ true → get_env getenv name ≡ "" =
      λ name. unset (get_env getenv) name variables h in
    rw (
      absent "POSTGRES_DSN" refl,
      absent "POSTGRES_MAX_OPEN_CONNS" refl,
      absent "POSTGRES_MAX_IDLE_CONNS" refl,
      absent "APP_NAME" refl,
      absent "APP_MASTER_KEY" refl,
      absent "OTEL" refl,
      absent "GRPC_PORT" refl,
      absent "GRPC_URL" refl,
      absent "GRPC_PING" refl,
      absent "REST_PORT" refl,
      absent "REST_TIMEOUT_READ" refl,
      absent "REST_TIMEOUT_READ_HEADER" refl,
      absent "REST_TIMEOUT_WRITE" refl,
      absent "REST_TIMEOUT_IDLE" refl,
      absent "REST_TIMEOUT_REQUEST" refl,
      absent "REST_MAX_REQUEST_SIZE" refl,
      absent "REST_CORS_ALLOWED_ORIGINS" refl,
      absent "REST_CORS_ALLOWED_HEADERS" refl,
      absent "REST_CORS_ALLOW_CREDENTIALS" refl,
      absent "REST_CORS_MAX_AGE" refl,
      absent "GCLOUD_PROJECT_ID" refl,
      l.no_int postgres_max_open_conns_default,
      l.no_string app_name_default,
      l.no_bool false,
      l.no_int grpc_port_default,
      l.no_duration grpc_default_ping,
      l.no_duration rest_timeout_read_default,
      l.no_duration rest_timeout_read_header_default,
      l.no_duration rest_timeout_write_default,
      l.no_duration rest_timeout_idle_default,
      l.no_int rest_max_request_size_default,
      l.no_slice cors_allowed_origins_default,
      l.no_int cors_max_age_default,
    )

-- A process whose variables have a prefix reads no other variable than these and the one that holds
-- the prefix: two environments that agree on them give the same settings.
pub prefixed_only :
    (load : LoadEnv) (getenv getenv' : Environment)
    → getenv prefix_name ≡ getenv' prefix_name
    → ((name : String) → starts_with name (getenv prefix_name) ≡ true → getenv name ≡ getenv' name)
    → load_settings load getenv ≡ load_settings load getenv'
unfolding load_settings
prefixed_only load getenv getenv' same agree = ap (settings_of load) (
    fun_ext λ name.
      agree (String.◌++◌ (getenv prefix_name) name) (starts_with-append (getenv prefix_name) name)
      ∙ ap (λ p. getenv' (String.◌++◌ p name)) same)
