-- ===== src/Core/RotateAll.antt =====
-- internal/core/jwkRotateAll.go: every configured usage in one transaction.
pub mod Outcome
pub mod Laws
pub mod Idle
pub mod Supply
pub mod Progress
use service_json_keys.Prelude.{ℕ, ◌+◌, String, ◌≡◌, ◌≢◌, ◌⊎◌, some, List, [], ◌∷◌}
use service_json_keys.Fault.{Error, Result, ok, err, panic, wrap}
use service_json_keys.Types.{Context, transaction}
use service_json_keys.Externals.{Externals}
use service_json_keys.Config.{JwkConfig, KeysConfig}
use service_json_keys.World.{World, Exec, pure, on_error, ◌>>=◌, ◌>>◌}
use service_json_keys.Core.Gen.{gen}

-- transaction.Transactor: WithinTx hands the function a context of the transaction. The value is
-- the counter that the function writes to.
pub record Transactor : Type 0 where
  pub within_tx : Context → (Context → Exec ℕ) → Exec ℕ

-- What is relied upon of it: either the function has succeeded, with the transaction and the master
-- key in its context, and its outcome is the call's; or the call does not succeed, and the table is
-- as it was.
pub record IsTransactor (t : Transactor) : Type 0 where
  pub outcome :
      (ctx : Context) (f : Context → Exec ℕ) (w : World)
      → ((n : ℕ) × (u : World) × (f (record ctx { postgres = some transaction }) w ≡ (ok n, u))
          × (t.within_tx ctx f w ≡ (ok n, u)))
        ⊎ (((n : ℕ) → (t.within_tx ctx f w).0 ≢ ok n) × ((t.within_tx ctx f w).1.rows ≡ w.rows))

-- JwkRotateAllResponse
pub record JwkRotateAllResponse : Type 0 where
  pub processed : ℕ

module _ (x : Externals) (keys_config : KeysConfig) where
  -- The loop over the usages, from `processed`.
  unfoldable pub rotate_usages : List (String × JwkConfig) → ℕ → Context → Exec ℕ
  rotate_usages [] processed ctx = pure processed
  rotate_usages ((usage, key_config) ∷ rest) processed ctx = do
    on_error (wrap usage) (gen x ctx keys_config usage)
    rotate_usages rest (processed + 1) ctx

  -- JwkRotateAll.Exec
  unfoldable pub rotate_all : Transactor → Context → Exec JwkRotateAllResponse
  rotate_all transactor ctx = do
    processed ←
        on_error (wrap "rotate keys") (transactor.within_tx ctx (rotate_usages keys_config 0))
    pure (record { processed = processed })
