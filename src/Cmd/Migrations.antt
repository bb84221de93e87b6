-- ===== src/Cmd/Migrations.antt =====
-- cmd/migrations/main.go: the inventory of the migration files that the command logs, and its run.
-- What fs.WalkDir calls its function with, one call after another, is a list here.
pub mod Inventory
pub mod Applied
use Prim.Native.String
use service_json_keys.Prelude.{
  ℕ, String, Bool, ◌||◌, List, [], ◌∷◌, ◌++◌, map, length, str_eq, if◌then◌else◌,
}
use service_json_keys.Fault.{Error, Result, ok, err, panic}
use service_json_keys.Types.{Context}
use service_json_keys.Config.Env.{Settings}
use service_json_keys.Config.App.{new_postgres_preset}
use service_json_keys.Cmd.{Golib, must, background}

-- One call: a path and whether it is a directory's, or the error that the walk has met.
pub data Visit : Type 0 where
  failed : Error → Visit
  visited : String → Bool → Visit

-- strings.HasSuffix
unfoldable pub has_suffix : String → String → Bool
has_suffix String.[] suffix = str_eq "" suffix
has_suffix (String.◌∷◌ c s) suffix = str_eq (String.◌∷◌ c s) suffix || has_suffix s suffix

-- strings.TrimSuffix
unfoldable pub trim_suffix : String → String → String
trim_suffix String.[] suffix = ""
trim_suffix (String.◌∷◌ c s) suffix =
    let rest = trim_suffix s suffix in
    if str_eq (String.◌∷◌ c s) suffix then "" else String.◌∷◌ c rest

abbrev pub up : String
up = ".up.sql"

-- listUpMigrations: an error ends the walk, and what was found before it is returned.
unfoldable pub list_up_migrations : List Visit → List String
list_up_migrations [] = []
list_up_migrations (failed e ∷ rest) = []
list_up_migrations (visited path is_dir ∷ rest) =
    let found = list_up_migrations rest in
    if is_dir then found else if has_suffix path up then trim_suffix path up ∷ found else found

-- What the command logs, line by line, without its texts and the duration.
pub data Line : Type 0 where
  discovered : ℕ → Line
  named : String → Line
  connecting : Line
  applying : Line
  completed : ℕ → Line

-- golib's postgres.RunMigrationsContext at the embedded files.
pub record Bun : Type 0 where
  pub run_migrations : Context → Result (Unit {0})

abbrev pub inventory : List String → List Line
inventory names = discovered (length names) ∷ map named names ++ connecting ∷ []

-- `lo.Must0` over the migrations, and the last line.
unfoldable pub apply : Bun → List String → Context → List Line × Result (Unit {0})
apply bun names ctx = elim (must (bun.run_migrations ctx)) [
  | ok _ ↦ (applying ∷ completed (length names) ∷ [], ok tt)
  | _ ↦ (applying ∷ [], panic)
]

-- main
unfoldable pub main : Golib → Bun → Settings → List Visit → List Line × Result (Unit {0})
main g bun env visits =
    let names = list_up_migrations visits in
    elim (must (g.new_context background (new_postgres_preset env))) [
      | ok ctx ↦ let (lines, ended) = apply bun names ctx in (inventory names ++ lines, ended)
      | _ ↦ (inventory names, panic)
    ]
