-- ===== src/Cmd/RotateKeys.antt =====
-- cmd/rotate-keys/main.go: one run of the rotation job, from its settings to how its process ends.
use service_json_keys.Prelude.{
  ℕ, ◌≡◌, ◌≢◌, ◌⊎◌, inl, inr, refl, All, some, List, ◌++◌, ◌≤◌, String, arith, Bool-cases, str_eq,
  eq_iff,
}
use service_json_keys.Fault.{Error, Result, ok, err, panic, wrap, Result-cases}
use service_json_keys.Types.{Context, Row}
use service_json_keys.Externals.{Externals, IsSecretbox, IsJson, IsRandom}
use service_json_keys.Config.{jwk_preset_default, lookup}
use service_json_keys.Config.Env.{Settings}
use service_json_keys.Config.App.{job_rotate_keys_preset_default}
use service_json_keys.World.{World}
use service_json_keys.Core.RotateAll.{Transactor, IsTransactor, JwkRotateAllResponse, rotate_all}
use service_json_keys.Core.RotateAll.Laws.{IsEnsured, rows_of, entries_of, rotate_all_sound}
use service_json_keys.Cmd.{Golib, boot}

-- The context that the job starts with.
unfoldable pub start : Golib → Settings → Result Context
unfolding job_rotate_keys_preset_default
start g env = let cfg = job_rotate_keys_preset_default env in boot g cfg.app cfg.otel cfg.postgres

-- How the process ends: its last log line with the number of usages, log.Fatalln, or a panic.
pub data Outcome : Type 0 where
  done : ℕ → Outcome
  fatal : Error → Outcome
  crashed : Outcome

abbrev pub outcome : Result JwkRotateAllResponse → Outcome
outcome (ok response) = done response.processed
outcome (err e) = fatal (wrap "rotate keys" e)
outcome panic = crashed

-- The rotation, once the job has started.
abbrev pub rotate : Externals → Transactor → Result Context → World → Outcome × World
rotate x transactor (ok ctx) w =
    let (response, w') = rotate_all x jwk_preset_default transactor ctx w in (outcome response, w')
rotate x transactor (err e) w = (crashed, w)
rotate x transactor panic w = (crashed, w)

-- `main`
unfoldable pub run : Golib → Externals → Transactor → Settings → World → Outcome × World
run g x transactor env = rotate x transactor (start g env)

preset_known : All (λ e. lookup e.0 jwk_preset_default ≡ some e.1) jwk_preset_default
unfolding lookup
preset_known = (refl, (refl, tt))

-- The two usages differ.
preset_once : (usage : String) → entries_of usage jwk_preset_default ≤ 1
preset_once usage = elim (Bool-cases (str_eq "auth" usage)) [
  | inl e ↦ rw (← (eq_iff "auth" usage).0 e) (omega arith)
  | inr e ↦ elim (Bool-cases (str_eq "auth-refresh" usage)) [
    | inl e1 ↦ rw (e, e1) (omega arith)
    | inr e1 ↦ rw (e, e1) (omega arith)
  ]
]

pub outcome-eq-done :
    (r : Result JwkRotateAllResponse) {n : ℕ}
    → outcome r ≡ done n
    → (response : JwkRotateAllResponse) × (r ≡ ok response)
outcome-eq-done (ok response) h = (response, refl)
outcome-eq-done (err e) h = cc
outcome-eq-done panic h = cc

-- Either the job ends well, and reports the two configured usages; then each of them has a key that
-- was current at some reading of the clock after the job began; every row of the table is kept, in
-- its order, and behind them at most one row of each usage is added, and none of a usage that is
-- not configured. Or it ends otherwise, by a fatal error or a panic, and the table is as it was.
pub run_sound :
    (g : Golib) (x : Externals) (transactor : Transactor) (env : Settings) (w : World)
    → IsSecretbox x
    → IsJson x
    → IsRandom x
    → IsTransactor transactor
    → (((run g x transactor env w).0 ≡ done 2)
        × All (IsEnsured x w.step (run g x transactor env w).1.rows) jwk_preset_default
        × ((added : List Row) × ((run g x transactor env w).1.rows ≡ w.rows ++ added)
            × ((usage : String) → rows_of usage added ≤ 1)
            × ((usage : String) → rows_of usage added ≤ entries_of usage jwk_preset_default)))
      ⊎ (((n : ℕ) → (run g x transactor env w).0 ≢ done n)
          × ((run g x transactor env w).1.rows ≡ w.rows))
unfolding run
run_sound g x transactor env w box json random within = elim (Result-cases (start g env)) [
  | inr (inl (_, e)) ↦ rw (e, run) (inr ((λ n h. cc), refl))
  | inr (inr e) ↦ rw (e, run) (inr ((λ n h. cc), refl))
  | inl (ctx, e) ↦
      rw (e, run)
        (elim (rotate_all_sound x jwk_preset_default box json random transactor ctx w within
          preset_known) [
            | inl (ended, (ensured, (added, is, few))) ↦ inl (
              rw ended,
              ensured,
              (added, is, λ usage. omega (arith, few usage, preset_once usage), few),
            )
            | inr (failed, kept) ↦ inr (
              (λ n h.
                  let (response, r) =
                    outcome-eq-done (rotate_all x jwk_preset_default transactor ctx w).0 h in
                  failed response r),
              kept,
            )
          ])
]
