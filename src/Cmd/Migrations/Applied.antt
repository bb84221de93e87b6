-- ===== src/Cmd/Migrations/Applied.antt =====
-- How a run of the command ends.
use service_json_keys.Prelude.{some, ◌≡◌, refl, ◌⊎◌, inl, inr, List, [], ◌∷◌, ◌++◌, length}
use service_json_keys.Fault.{ok, panic}
use service_json_keys.Types.{pool, Context}
use service_json_keys.Config.Env.{Settings}
use service_json_keys.Config.App.{new_postgres_preset}
use service_json_keys.Cmd.{Golib, IsGolib, must-cases, background}
use service_json_keys.Cmd.Migrations.{
  apply, Visit, list_up_migrations, completed, applying, inventory, Bun, main,
}

-- The run ends well exactly with the line of its completion, which counts the files of the
-- inventory: then the migrations were applied in a context that holds the pool. Otherwise it
-- panics, before or behind the line that announces the migrations. In each case, the inventory is
-- logged before the database is reached.
pub main_cases :
    (g : Golib) (bun : Bun) (env : Settings) (visits : List Visit)
    → IsGolib g
    → let names = list_up_migrations visits in
      ((ctx : Context) × (ctx.postgres ≡ some pool)
        × (bun.run_migrations ctx ≡ ok tt)
        × (main g bun env visits
            ≡ (inventory names ++ applying ∷ completed (length names) ∷ [], ok tt)))
      ⊎ (main g bun env visits ≡ (inventory names ++ applying ∷ [], panic))
      ⊎ (main g bun env visits ≡ (inventory names, panic))
unfolding main apply
main_cases g bun env visits golib =
    elim (must-cases (g.new_context background (new_postgres_preset env))) [
      | inl e ↦ inr (inr (rw (main, e) refl))
      | inr (ctx, e) ↦ elim (must-cases (bun.run_migrations ctx)) [
        | inl f ↦ inr (inl (rw (main, e) (rw (apply, f) refl)))
        | inr (u, f) ↦ inl (
          ctx,
          (golib.opened background ctx (new_postgres_preset env) e).0,
          f,
          rw (main, e) (rw (apply, f) refl),
        )
      ]
    ]
