-- ===== src/Deployment/Limits.antt =====
-- The bound on the active keys of a usage, and that a search of the configured usages of
-- jwkPresetDefault is never cut.
use service_json_keys.Prelude.{
  ◌⊎◌, ℕ, ◌+◌, ◌-◌, ◌*◌, ◌≤◌, ◌<◌, String, ◌≡◌, refl, ap, some, List, [], arith, length,
  length-take, All, Listed, inl, inr,
}
use service_json_keys.Prelude.Int.{pos}
use service_json_keys.Fault.{ok}
use service_json_keys.Clock.{second}
use service_json_keys.Encoding.{Bytes}
use service_json_keys.Types.{Context, Row}
use service_json_keys.Externals.{Externals, IsSecretbox, IsJson, IsRandom}
use service_json_keys.Config.{JwkConfig, KeysConfig, lookup, auth, auth_refresh, jwk_preset_default}
use service_json_keys.World.{World}
use service_json_keys.Dao
use service_json_keys.Dao.Order.{sort_newest}
use service_json_keys.Dao.Order.Laws.{length-sort_newest}
use service_json_keys.Dao.Search.{IsServed, served, search-eq-ok, search-log, search_complete}
use service_json_keys.Deployment.{IsClock, half_second, History}
use service_json_keys.Deployment.Spacing.{Paced-bound}
use service_json_keys.Deployment.Induction.{History-IsKept}
use service_json_keys.Deployment.Steps.{IsSteady, IsSteady-IsKept}

-- Let the rotation interval and the lifetime of the keys of a usage be those of the configuration,
-- the interval half a second or more; let the clock of the service not go back, and be ahead of the
-- database's by the skew at most during each rotation, and columns hold the nearest second. From an
-- empty table, whatever rotations under one master key, revocations and other calls have been made,
-- the active keys of the usage are so few that their number, times the interval less half a second,
-- is less than the lifetime, the interval, the skew and one second together.
pub active_bound :
    (x : Externals) (keys_config : KeysConfig) (secret : Bytes) (skew : ℕ) (usage : String)
    (key_config : JwkConfig) (interval life : ℕ) (w v : World)
    → IsSecretbox x
    → IsJson x
    → IsRandom x
    → IsClock x
    → All (λ e. lookup e.0 keys_config ≡ some e.1) keys_config
    → lookup usage keys_config ≡ some key_config
    → key_config.key.rotation ≡ pos interval
    → key_config.key.ttl ≡ pos life
    → half_second ≤ interval
    → w.rows ≡ []
    → History x keys_config secret skew w v
    → length (served usage v) * (interval - half_second) < life + interval + skew + second
active_bound x keys_config secret skew usage key_config interval life w v box json random clock
      known configured interval_is life_is long empty history =
    let steady =
      History-IsKept x keys_config secret skew
        (IsSteady x keys_config skew usage key_config interval life box json random clock configured
          interval_is life_is long)
        box json random
        (IsSteady-IsKept x keys_config skew usage key_config interval life box json random clock
          configured interval_is life_is long secret)
        known history (rw empty (tt, tt)) in
    let bound =
      Paced-bound (interval - half_second) usage (life + second) (skew + half_second) v.db_time
        v.rows (omega arith) steady in
    omega (arith, bound)

-- The entries of jwkPresetDefault, with their intervals and lifetimes in hours.
pub preset_cases :
    (usage : String) (key_config : JwkConfig)
    → lookup usage jwk_preset_default ≡ some key_config
    → (key_config ≡ auth) ⊎ (key_config ≡ auth_refresh)
unfolding lookup
preset_cases usage key_config h = ground arith

pub preset_known : All (λ e. lookup e.0 jwk_preset_default ≡ some e.1) jwk_preset_default
unfolding lookup
preset_known = (refl, (refl, tt))

module _ (x : Externals) (w v : World) (box : IsSecretbox x) (json : IsJson x) (random : IsRandom x)
    (clock : IsClock x) (secret : Bytes) (skew : ℕ) (close : skew ≤ 3600 * second)
    (empty : w.rows ≡ []) (history : History x jwk_preset_default secret skew w v) where
  served_few :
      (usage : String) (key_config : JwkConfig)
      → lookup usage jwk_preset_default ≡ some key_config
      → length (served usage v) ≤ 8
  served_few usage key_config configured = elim (preset_cases usage key_config configured) [
    | inl e ↦
        let bound =
          active_bound x jwk_preset_default secret skew usage key_config (24 * 3600 * second)
            (168 * 3600 * second) w v box json random clock preset_known configured
            (ap (λ c. c.key.rotation) e) (ap (λ c. c.key.ttl) e) (omega arith) empty history in
        omega (arith, bound)
    | inr e ↦
        let bound =
          active_bound x jwk_preset_default secret skew usage key_config (168 * 3600 * second)
            (720 * 3600 * second) w v box json random clock preset_known configured
            (ap (λ c. c.key.rotation) e) (ap (λ c. c.key.ttl) e) (omega arith) empty history in
        omega (arith, bound)
  ]

  -- Let the clock of the service not go back, and be ahead of the database's by an hour at most
  -- during each rotation, and columns hold the nearest second. With the default configuration, from
  -- an empty table, whatever rotations under one master key, revocations and other calls have been
  -- made, a search of a configured usage lists every active key of it, eight at most, and logs no
  -- overflow.
  pub default_search_full :
      (ctx : Context) (usage : String) (key_config : JwkConfig) (u : World) (found : List Row)
      → lookup usage jwk_preset_default ≡ some key_config
      → Dao.search x ctx usage v ≡ (ok found, u)
      → (length found ≤ 8) × (u.log ≡ v.log) × ((r : Row) → IsServed usage v r → Listed r found)
  default_search_full ctx usage key_config u found configured ran =
      let (is, _, _) = search-eq-ok x ctx usage v u found ran in
      let few : length found ≤ 8 = omega (
        arith,
        ap length is,
        length-take Dao.keys_max_batch_size (sort_newest (served usage v)),
        length-sort_newest (served usage v),
        served_few usage key_config configured,
      ) in
      (
        few,
        search-log x ctx usage v u found ran (omega arith),
        λ r. search_complete x ctx usage v u found r ran (omega arith),
      )
