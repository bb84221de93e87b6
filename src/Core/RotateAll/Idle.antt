-- ===== src/Core/RotateAll/Idle.antt =====
-- When a rotation has nothing to do.
use service_json_keys.Prelude.{
  ℕ, ◌+◌, ◌≤◌, ◌<◌, String, ◌≡◌, sym, subst, ap, ◌∙◌, inl, inr, true, some, List, [], ◌∷◌, arith,
  All, All-imp, Listed, Option,
}
use service_json_keys.Prelude.Int.{◌<ℤ◌}
use service_json_keys.Fault.{ok, wrap}
use service_json_keys.Clock.{Time, sub}
use service_json_keys.Types.{Context, Jwk, Row, transaction}
use service_json_keys.Externals.{Externals, IsSecretbox, IsJson, IsRandom}
use service_json_keys.Config.{JwkConfig, KeysConfig, lookup}
use service_json_keys.World.{World}
use service_json_keys.World.Laws.{>>=-eq-ok, on_error-eq-ok}
use service_json_keys.Dao.Schema.{is_active}
use service_json_keys.Core.Gen.{gen}
use service_json_keys.Core.Gen.Rotation.{gen_sound}
use service_json_keys.Core.RotateAll.{Transactor, IsTransactor, rotate_usages, rotate_all}
use service_json_keys.Core.RotateAll.Outcome.{rotate_all_cases}
use service_json_keys.Lifecycle.{Reach}
use service_json_keys.Lifecycle.History.{Reach-db_time}
use service_json_keys.Lifecycle.Services.{gen-Follows}

-- Between the two states, the usage of the entry has a key that is active to the end, and younger
-- than the rotation interval at every reading of the clock.
abbrev pub IsFresh : Externals → World → World → String × JwkConfig → Type 0
IsFresh x w v (usage, key_config) =
    (r : Row) × (r.usage ≡ usage)
    × Listed r w.rows
    × (is_active v.db_time r ≡ true)
    × ((n : ℕ) → w.step ≤ n → n < v.step → sub (x.now n) r.created_at <ℤ key_config.key.rotation)

pub is_active_before :
    (now later : Time) (r : Row) → now ≤ later → is_active later r ≡ true → is_active now r ≡ true
unfolding is_active
is_active_before now later r h active = ground arith

module _ (x : Externals) (keys_config : KeysConfig) (box : IsSecretbox x) (json : IsJson x)
    (random : IsRandom x) where
  pub gen_onward :
      (ctx : Context) (usage : String) (key_config : JwkConfig) (w u : World) {key : Option Jwk}
      → lookup usage keys_config ≡ some key_config
      → gen x ctx keys_config usage w ≡ (ok key, u)
      → (w.step ≤ u.step) × (w.db_time ≤ u.db_time)
  gen_onward ctx usage key_config w u {key} configured ran = (
    elim (gen_sound x ctx keys_config key_config usage w u key box json random configured ran) [
      | inl k ↦ k.onward
      | inr k ↦ k.onward
    ],
    Reach-db_time (subst (λ p. Reach x w p.1) ran ((gen-Follows x ctx keys_config usage).moves w)),
  )

  pub rotate_usages_onward :
      (entries : List (String × JwkConfig)) (processed n : ℕ) (ctx : Context) (w v : World)
      → All (λ e. lookup e.0 keys_config ≡ some e.1) entries
      → rotate_usages x keys_config entries processed ctx w ≡ (ok n, v)
      → (w.step ≤ v.step) × (w.db_time ≤ v.db_time)
  unfolding rotate_usages
  rotate_usages_onward [] processed n ctx w v known h =
      let same : w ≡ v = ap (λ p. p.1) h in (rw same (omega arith), rw same (omega arith))
  rotate_usages_onward ((usage, key_config) ∷ rest) processed n ctx w v (configured, known) h =
      let (key, u, made, h1) = >>=-eq-ok _ _ w h in
      let made' = on_error-eq-ok (wrap usage) (gen x ctx keys_config usage) w made in
      let (sooner, earlier) = rotate_usages_onward rest (processed + 1) n ctx u v known h1 in
      let here = gen_onward ctx usage key_config w u configured made' in (omega arith, omega arith)

  gen_idle :
      (ctx : Context) (usage : String) (key_config : JwkConfig) (w u v : World) {key : Option Jwk}
      → lookup usage keys_config ≡ some key_config
      → gen x ctx keys_config usage w ≡ (ok key, u)
      → u.step ≤ v.step
      → u.db_time ≤ v.db_time
      → IsFresh x w v (usage, key_config)
      → u.rows ≡ w.rows
  gen_idle ctx usage key_config w u v {key} configured ran sooner earlier
        (r, of_usage, listed, active, young) =
      elim (gen_sound x ctx keys_config key_config usage w u key box json random configured ran) [
        | inl k ↦ k.unchanged
        | inr k ↦
            let (_, onward) = gen_onward ctx usage key_config w u configured ran in
            let served = is_active_before w.db_time v.db_time r (omega arith) active in
            let due = k.due r (of_usage, served, listed) in
            let fresh = young k.reading k.late (omega (arith, k.early)) in absurd (omega arith)
      ]

  IsFresh-later :
      (w u v : World) (e : String × JwkConfig)
      → u.rows ≡ w.rows
      → w.step ≤ u.step
      → IsFresh x w v e
      → IsFresh x u v e
  IsFresh-later w u v e same onward (r, of_usage, listed, active, young) =
      (r, of_usage, rw same listed, active, λ n after before. young n (omega arith) before)

  rotate_usages_idle :
      (entries : List (String × JwkConfig)) (processed n : ℕ) (ctx : Context) (w v : World)
      → All (λ e. lookup e.0 keys_config ≡ some e.1) entries
      → rotate_usages x keys_config entries processed ctx w ≡ (ok n, v)
      → All (IsFresh x w v) entries
      → v.rows ≡ w.rows
  unfolding rotate_usages
  rotate_usages_idle [] processed n ctx w v known h fresh = sym (ap (λ p. p.1.rows) h)
  rotate_usages_idle ((usage, key_config) ∷ rest) processed n ctx w v (configured, known) h
        (first, fresh) =
      let (key, u, made, h1) = >>=-eq-ok _ _ w h in
      let made' = on_error-eq-ok (wrap usage) (gen x ctx keys_config usage) w made in
      let (sooner, earlier) = rotate_usages_onward rest (processed + 1) n ctx u v known h1 in
      let same = gen_idle ctx usage key_config w u v configured made' sooner earlier first in
      let (onward, _) = gen_onward ctx usage key_config w u configured made' in
      rotate_usages_idle rest (processed + 1) n ctx u v known h1
        (All-imp (λ e. IsFresh-later w u v e same onward) rest fresh)
      ∙ same

  -- A rotation before which every configured usage had a key that is active to its end, and younger
  -- than the rotation interval at every reading of the clock during it, leaves the table as it was,
  -- whether it succeeds or not: rotating again too early adds nothing.
  pub rotate_all_idle :
      (t : Transactor) (ctx : Context) (w : World)
      → IsTransactor t
      → All (λ e. lookup e.0 keys_config ≡ some e.1) keys_config
      → All (IsFresh x w (rotate_all x keys_config t ctx w).1) keys_config
      → (rotate_all x keys_config t ctx w).1.rows ≡ w.rows
  rotate_all_idle t ctx w transactor known fresh =
      elim (rotate_all_cases x keys_config t ctx w transactor) [
        | inr kept ↦ kept
        | inl (n, u, ran, ended) ↦
            let done =
              rotate_usages_idle keys_config 0 n (record ctx { postgres = some transaction }) w u
                known ran (subst (λ v. All (IsFresh x w v) keys_config) ended fresh) in
            ap (λ v. v.rows) ended ∙ done
      ]
