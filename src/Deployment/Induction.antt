-- ===== src/Deployment/Induction.antt =====
-- What every call of a deployment keeps, all calls keep: the rule by which an invariant of a
-- history is proved.
use service_json_keys.Prelude.{
  ℕ, ◌+◌, ◌≤◌, String, ◌≡◌, sym, subst, ap, inl, inr, Option, some, List, [], ◌∷◌, arith, All,
}
use service_json_keys.Fault.{ok, wrap}
use service_json_keys.Types.{Context, Jwk, transaction}
use service_json_keys.Encoding.{Bytes}
use service_json_keys.Externals.{Externals, IsSecretbox, IsJson, IsRandom}
use service_json_keys.Config.{JwkConfig, KeysConfig, lookup}
use service_json_keys.World.{World}
use service_json_keys.World.Laws.{>>=-eq-ok, on_error-eq-ok}
use service_json_keys.Dao
use service_json_keys.Dao.{revoke_all}
use service_json_keys.Dao.Delete.{delete-rows}
use service_json_keys.Core.Gen.{gen}
use service_json_keys.Core.Gen.Rotation.{Rotated, gen_sound}
use service_json_keys.Core.RotateAll.{Transactor, IsTransactor, rotate_usages, rotate_all}
use service_json_keys.Core.RotateAll.Outcome.{rotate_all_cases}
use service_json_keys.Core.RotateAll.Idle.{gen_onward, rotate_usages_onward}
use service_json_keys.Lifecycle.History.{Reach-db_time}
use service_json_keys.Lifecycle.Statements.{delete-Reach}
use service_json_keys.Deployment.{IsInStep, History, begun, rotated, revoked, passed}

-- A property of the state that is kept when time passes, when a key is made for a configured usage,
-- and when keys are revoked.
pub record IsKept (x : Externals) (keys_config : KeysConfig) (secret : Bytes) (skew : ℕ)
    (P : World → Type 0) : Type 0 where
  pub passing : (w v : World) → v.rows ≡ w.rows → w.db_time ≤ v.db_time → P w → P v
  pub making :
      (ctx : Context) (usage : String) (key_config : JwkConfig) (w v : World) {key : Option Jwk}
      → ctx.master_key ≡ some secret
      → lookup usage keys_config ≡ some key_config
      → IsInStep x skew w v
      → w.db_time ≤ v.db_time
      → Rotated x ctx key_config usage w v key
      → P w
      → P v
  pub revoking :
      (request : Dao.JwkDeleteRequest) (w v : World)
      → v.rows ≡ revoke_all x request w.db_time w.rows
      → w.db_time ≤ v.db_time
      → P w
      → P v

module _ (x : Externals) (keys_config : KeysConfig) (secret : Bytes) (skew : ℕ) (P : World → Type 0)
    (box : IsSecretbox x) (json : IsJson x) (random : IsRandom x)
    (kept : IsKept x keys_config secret skew P) where
  gen-IsKept :
      (ctx : Context) (usage : String) (key_config : JwkConfig) (w v : World) {key : Option Jwk}
      → ctx.master_key ≡ some secret
      → lookup usage keys_config ≡ some key_config
      → IsInStep x skew w v
      → gen x ctx keys_config usage w ≡ (ok key, v)
      → P w
      → P v
  gen-IsKept ctx usage key_config w v {key} held known in_step ran p =
      let (_, onward) =
        gen_onward x keys_config box json random ctx usage key_config w v known ran in
      elim (gen_sound x ctx keys_config key_config usage w v key box json random known ran) [
        | inl k ↦ kept.passing w v k.unchanged onward p
        | inr k ↦ kept.making ctx usage key_config w v held known in_step onward k p
      ]

  usages-IsKept :
      (entries : List (String × JwkConfig)) (processed n : ℕ) (ctx : Context) (w v : World)
      → ctx.master_key ≡ some secret
      → All (λ e. lookup e.0 keys_config ≡ some e.1) entries
      → IsInStep x skew w v
      → rotate_usages x keys_config entries processed ctx w ≡ (ok n, v)
      → P w
      → P v
  unfolding rotate_usages
  usages-IsKept [] processed n ctx w v held known in_step h p = subst P (ap (λ q. q.1) h) p
  usages-IsKept ((usage, key_config) ∷ rest) processed n ctx w v held (first, known) in_step h p =
      let (key, u, made, h1) = >>=-eq-ok _ _ w h in
      let made' = on_error-eq-ok (wrap usage) (gen x ctx keys_config usage) w made in
      let (step1, time1) =
        gen_onward x keys_config box json random ctx usage key_config w u first made' in
      let (step2, time2) =
        rotate_usages_onward x keys_config box json random rest (processed + 1) n ctx u v known
          h1 in
      let next =
        gen-IsKept ctx usage key_config w u held first (λ m late soon. in_step m late (omega arith))
          made' p in
      usages-IsKept rest (processed + 1) n ctx u v held known
        (λ m late soon. omega (arith, in_step m (omega arith) soon)) h1 next

  rotation-IsKept :
      (t : Transactor) (ctx : Context) (w : World)
      → ctx.master_key ≡ some secret
      → IsTransactor t
      → All (λ e. lookup e.0 keys_config ≡ some e.1) keys_config
      → w.db_time ≤ (rotate_all x keys_config t ctx w).1.db_time
      → IsInStep x skew w (rotate_all x keys_config t ctx w).1
      → P w
      → P (rotate_all x keys_config t ctx w).1
  rotation-IsKept t ctx w held transactor known onward in_step p =
      elim (rotate_all_cases x keys_config t ctx w transactor) [
        | inl (n, u, ran, ended) ↦ subst P (sym ended) (
            usages-IsKept keys_config 0 n (record ctx { postgres = some transaction }) w u held
              known (subst (IsInStep x skew w) ended in_step) ran p)
        | inr same ↦ kept.passing w (rotate_all x keys_config t ctx w).1 same onward p
      ]

  deletion-IsKept :
      (ctx : Context) (request : Dao.JwkDeleteRequest) (w : World)
      → P w
      → P (Dao.delete x ctx request w).1
  deletion-IsKept ctx request w p =
      let v = (Dao.delete x ctx request w).1 in
      let onward = Reach-db_time (delete-Reach x ctx request w) in
      elim (delete-rows x ctx request w) [
        | inl same ↦ kept.passing w v same onward p
        | inr changed ↦ kept.revoking request w v changed onward p
      ]

  pub History-IsKept :
      {w v : World}
      → All (λ e. lookup e.0 keys_config ≡ some e.1) keys_config
      → History x keys_config secret skew w v
      → P w
      → P v
  History-IsKept known begun p = p
  History-IsKept known (rotated {u = u} t ctx history held transactor is onward in_step) p =
      subst P (sym is) (
        rotation-IsKept t ctx u held transactor known (subst (λ v. u.db_time ≤ v.db_time) is onward)
          (subst (IsInStep x skew u) is in_step) (History-IsKept known history p))
  History-IsKept known (revoked ctx request history is) p =
      subst P (sym is) (deletion-IsKept ctx request _ (History-IsKept known history p))
  History-IsKept {v = v} known (passed {u = u} history same onward) p =
      kept.passing u v same onward (History-IsKept known history p)
