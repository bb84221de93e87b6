-- ===== src/Core/RotateAll/Outcome.antt =====
-- What a rotation leaves behind: what its loop has left, or the table as it was.
use service_json_keys.Prelude.{ℕ, ◌≡◌, ◌⊎◌, inl, inr, some, arith}
use service_json_keys.Fault.{ok, Result-cases}
use service_json_keys.Types.{Context, transaction}
use service_json_keys.Externals.{Externals}
use service_json_keys.Config.{KeysConfig}
use service_json_keys.World.{World, ◌>>=◌}
use service_json_keys.Core.RotateAll.{Transactor, IsTransactor, rotate_usages, rotate_all}

pub rotate_all_cases :
    (x : Externals) (keys_config : KeysConfig) (t : Transactor) (ctx : Context) (w : World)
    → IsTransactor t
    → ((n : ℕ) × (u : World) × (rotate_usages x keys_config keys_config 0
            (record ctx { postgres = some transaction })
            w
          ≡ (ok n, u))
        × ((rotate_all x keys_config t ctx w).1 ≡ u))
      ⊎ ((rotate_all x keys_config t ctx w).1.rows ≡ w.rows)
unfolding rotate_all
rotate_all_cases x keys_config t ctx w transactor =
    elim (transactor.outcome ctx (rotate_usages x keys_config keys_config 0) w) [
      | inl (n, u, ran, is) ↦ inl (n, u, ran, unfold ◌>>=◌ in rw is)
      | inr (failed, kept) ↦
          elim (Result-cases (t.within_tx ctx (rotate_usages x keys_config keys_config 0) w).0) [
            | inl (n, e) ↦ absurd (failed n e)
            | inr e ↦ inr (unfold ◌>>=◌ in ground arith)
          ]
    ]
