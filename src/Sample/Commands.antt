-- ===== src/Sample/Commands.antt =====
-- The settings and the commands at concrete inputs.
use service_json_keys.Prelude.{
  ℕ, zero, suc, all, eq_iff, ◌≡◌, ◌≢◌, ◌⊎◌, ◌↔◌, refl, String, true, false, ◌&&◌, Option, none,
  some, List, [], ◌∷◌, ◌++◌, ◌≤◌, length, arith, All, str_eq, if◌then◌else◌,
}
use service_json_keys.Fault.{Result, ok, err, panic, other}
use service_json_keys.Encoding.{Bytes}
use service_json_keys.Encoding.Hex
use service_json_keys.Types.{Context, Row, pool}
use service_json_keys.Config.{jwk_preset_default}
use service_json_keys.Config.Env.{
  load_settings, get_env, IsLoadEnv, Environment, LoadEnv, IsLoadEnv, Settings, Environment,
  get_env,
}
use service_json_keys.Config.Env.Defaults.{
  variables, default_settings, load_settings_defaults, default_settings,
}
use service_json_keys.Config.App.{
  Main, OtelConfig, PostgresConfig, app_preset_default, new_postgres_preset, otel_preset,
}
use service_json_keys.MasterKey.{new_master_key_context, master_key_length}
use service_json_keys.Core.RotateAll.Laws.{IsEnsured, rows_of, entries_of}
use service_json_keys.Cmd.{Golib, IsGolib, boot, boot_outcome, codes}
use service_json_keys.Cmd.Rest
use service_json_keys.Cmd.Rest.{Chi, Request, Endpoint}
use service_json_keys.Cmd.Rest.Public.{rest_public}
use service_json_keys.Cmd.Rest.ReadOnly.{rest_read_only}
use service_json_keys.Cmd.RotateKeys.{run, run_sound, done}
use service_json_keys.Cmd.Migrations.{
  Visit, failed, visited, has_suffix, trim_suffix, list_up_migrations,
}
use service_json_keys.Cmd.Migrations.Inventory.{Inventory, list_up_migrations_lem}
use service_json_keys.Sample.{
  sample, sample-IsSecretbox, sample-IsJson, sample-IsRandom, one_key, transactor,
  transactor_sample,
}
use service_json_keys.Sample.Transport.{httpf, other_private}

abbrev given : {V : Type 0} → String → V → Result V
given t v = if str_eq t "" then ok v else err (other "invalid")

abbrev load : LoadEnv
load = record {
  string_parser = λ t v. ok (if str_eq t "" then v else t);
  int_parser = λ t v. given t v;
  bool_parser = λ t v. given t v;
  duration_parser = λ t v. given t v;
  slice_parser = λ t v. given t v;
}

load-IsLoadEnv : IsLoadEnv load
load-IsLoadEnv = record {
  no_string = λ v. refl;
  no_int = λ v. refl;
  no_bool = λ v. refl;
  no_duration = λ v. refl;
  no_slice = λ v. refl;
}

-- Another program's variables are set, and none of the service's.
abbrev elsewhere : Environment
elsewhere name = if str_eq name "HOME" then "/root" else ""

all_unset :
    (names : List String)
    → all (λ name. str_eq (get_env elsewhere name) "") names ≡ true
    → All (λ name. get_env elsewhere name ≡ "") names
all_unset [] h = tt
all_unset (name ∷ names) h = ground (arith, eq_iff (get_env elsewhere name) "", all_unset names)

load_runs : load_settings load elsewhere ≡ ok default_settings
load_runs = load_settings_defaults load elsewhere load-IsLoadEnv (all_unset variables refl)

-- A library that opens every pool.
abbrev pub golib : Golib
golib = record {
  init = λ config. ok tt;
  new_context = λ ctx config. ok (record ctx { postgres = some pool });
  transfer_context = λ base dest. record dest { postgres = base.postgres };
}

pub golib-IsGolib : IsGolib golib
golib-IsGolib = record {
  opened = λ ctx ctx' config h. ground arith;
  transferred = λ base dest. (refl, refl);
}

-- Two processes, with master keys of their own.
abbrev pub zero_settings : Settings
zero_settings = record default_settings {
  app_master_key = "0000000000000000000000000000000000000000000000000000000000000000";
}

abbrev pub one_settings : Settings
one_settings = record default_settings {
  app_master_key = "1111111111111111111111111111111111111111111111111111111111111111";
}

abbrev zero_app : Main
zero_app = (app_preset_default zero_settings).app

abbrev otel : OtelConfig
otel = otel_preset zero_settings

abbrev postgres : PostgresConfig
postgres = new_postgres_preset zero_settings

abbrev pub repeated : ℕ → ℕ → Bytes
repeated zero b = []
repeated (suc n) b = b ∷ repeated n b

abbrev pub zero_context : Context
zero_context = record { master_key = some (repeated 32 0); postgres = some pool }

abbrev one_context : Context
one_context = record { master_key = some (repeated 32 17); postgres = some pool }

pub zero_starts : Rest.start golib zero_settings ≡ ok zero_context
unfolding Rest.start boot new_master_key_context Hex.decode
zero_starts = refl

one_starts : Rest.start golib one_settings ≡ ok one_context
unfolding Rest.start boot new_master_key_context Hex.decode
one_starts = refl

boot_outcome_example :
    (boot golib zero_app otel postgres ≡ panic)
    ⊎ ((ctx : Context) × (key : Bytes) × (boot golib zero_app otel postgres ≡ ok ctx)
        × (Hex.decode (codes zero_app.master_key) ≡ ok key)
        × (length key ≡ master_key_length)
        × (ctx.master_key ≡ some key)
        × (ctx.postgres ≡ some pool))
boot_outcome_example = boot_outcome golib zero_app otel postgres golib-IsGolib

-- A router that takes the first route of the method and the path.
abbrev first_route : List (String × String × Endpoint) → String → String → Option Endpoint
first_route [] method path = none
first_route ((m, p, to) ∷ routes) method path =
    if str_eq m method && str_eq p path then some to else first_route routes method path

abbrev chi : Chi
chi = record { route = first_route }

abbrev get : String → String → Request
get path value = record { method = "GET"; path = path; query = λ name. value }

abbrev requests : List Request
requests = get "/v2/jwks" "auth" ∷ get "/v2/healthcheck" "" ∷ get "/v2/none" "" ∷ []

rest_public_example :
    (Rest.serve_all httpf sample zero_context chi requests one_key).0
    ≡ (Rest.serve_all httpf sample one_context chi requests other_private).0
rest_public_example =
    rest_public golib httpf sample chi requests zero_settings one_settings zero_context one_context
      one_key other_private golib-IsGolib zero_starts one_starts refl

rest_read_only_example :
    (length (Rest.serve_all httpf sample zero_context chi requests one_key).0 ≡ length requests)
    × ((Rest.serve_all httpf sample zero_context chi requests one_key).1.rows ≡ one_key.rows)
    × ((Rest.serve_all httpf sample zero_context chi requests one_key).1.db_time ≡ one_key.db_time)
rest_read_only_example = rest_read_only httpf sample zero_context chi requests one_key

run_sound_example :
    (((run golib sample transactor zero_settings one_key).0 ≡ done 2)
      × All
          (IsEnsured sample 0 (run golib sample transactor zero_settings one_key).1.rows)
          jwk_preset_default
      × ((added : List Row) × ((run golib sample transactor zero_settings one_key).1.rows
            ≡ one_key.rows ++ added)
          × ((usage : String) → rows_of usage added ≤ 1)
          × ((usage : String) → rows_of usage added ≤ entries_of usage jwk_preset_default)))
    ⊎ (((n : ℕ) → (run golib sample transactor zero_settings one_key).0 ≢ done n)
        × ((run golib sample transactor zero_settings one_key).1.rows ≡ one_key.rows))
run_sound_example =
    run_sound golib sample transactor zero_settings one_key sample-IsSecretbox sample-IsJson
      sample-IsRandom transactor_sample

abbrev walk : List Visit
walk =
    visited "." true
    ∷ visited "1_schema.down.sql" false
    ∷ visited "1_schema.up.sql" false
    ∷ failed (other "permission denied")
    ∷ visited "2_more.up.sql" false
    ∷ []

list_up_migrations_lem_example :
    Inventory walk ("1_schema" ∷ []) ↔ (list_up_migrations walk ≡ "1_schema" ∷ [])
list_up_migrations_lem_example = list_up_migrations_lem walk ("1_schema" ∷ [])

walk_runs : list_up_migrations walk ≡ "1_schema" ∷ []
unfolding list_up_migrations has_suffix trim_suffix
walk_runs = refl
