-- ===== src/Deployment/Steps.antt =====
-- What each call of a deployment does to the spacing of the keys of a usage.
use service_json_keys.Prelude.{
  ℕ, ◌+◌, ◌-◌, ◌≤◌, ◌<◌, String, ◌≡◌, refl, sym, subst, ap, ◌∙◌, inl, inr, Option, some, arith,
  All-imp, All-Listed, Bool-cases,
}
use service_json_keys.Prelude.Int.{pos, ◌≤ℤ◌}
use service_json_keys.Clock.{Time, sub, add_pos, second}
use service_json_keys.Types.{Context, Jwk, Row}
use service_json_keys.Externals.{Externals, IsSecretbox, IsJson, IsRandom}
use service_json_keys.Config.{JwkConfig, KeysConfig, lookup}
use service_json_keys.World.{World}
use service_json_keys.Dao
use service_json_keys.Dao.Schema.{is_active, is_deletable}
use service_json_keys.Dao.Delete.{after, dates-after, revoke_all-eq-map}
use service_json_keys.Core.Gen.Generate.{Made}
use service_json_keys.Core.Gen.Rotation.{Rotated}
use service_json_keys.Encoding.{Bytes}
use service_json_keys.Deployment.{IsClock, IsInStep, half_second}
use service_json_keys.Deployment.Induction.{IsKept}
use service_json_keys.Deployment.Spacing.{Counts, Paced, Paced-map, Paced-later, Paced-append}

-- A row that was as old as the interval at a reading of the clock is older than one that is made
-- later by the interval, less what a column rounds off.
due_gap :
    (checked later stored : Time) (interval : ℕ) (r : Row)
    → half_second ≤ interval
    → pos interval ≤ℤ sub checked r.created_at
    → checked ≤ later
    → later ≤ stored + half_second
    → r.created_at + (interval - half_second) ≤ stored
unfolding sub
due_gap checked later stored interval r long due onward rounded = ground arith

module _ (x : Externals) (keys_config : KeysConfig) (skew : ℕ) (usage : String)
    (key_config : JwkConfig) (interval life : ℕ) (box : IsSecretbox x) (json : IsJson x)
    (random : IsRandom x) (clock : IsClock x)
    (configured : lookup usage keys_config ≡ some key_config)
    (interval_is : key_config.key.rotation ≡ pos interval) (life_is : key_config.key.ttl ≡ pos life)
    (long : half_second ≤ interval) where
  -- The keys of the usage are apart by the rotation interval, and expire after their lifetime.
  abbrev pub IsSteady : World → Type 0
  IsSteady w =
      Paced (interval - half_second) usage (life + second) (skew + half_second) w.db_time w.rows

  IsSteady-passed :
      (w v : World) → v.rows ≡ w.rows → w.db_time ≤ v.db_time → IsSteady w → IsSteady v
  IsSteady-passed w v same onward steady = rw same (
      Paced-later (interval - half_second) usage (life + second) (skew + half_second) w.db_time
        v.db_time w.rows onward steady)

  made_dates :
      (ctx : Context) (of_usage : String) (of_config : JwkConfig) (w v : World) (row : Row)
      → (made : Made w.step x of_config of_usage ctx row) → of_config ≡ key_config
      → made.reading < v.step
      → IsInStep x skew w v
      → (row.expires_at ≤ row.created_at + (life + second))
        × (row.created_at ≤ w.db_time + (skew + half_second))
  made_dates ctx of_usage of_config w v row made same timely in_step =
      let read = x.now made.reading in
      let made_at = made.created in
      let expires_at : row.expires_at ≡ x.stamp (read + life) =
        rw (made.expires, same, life_is, add_pos read life) refl in
      (
        omega (arith, made_at, expires_at, clock.not_above (read + life), clock.not_below read),
        omega (arith, made_at, clock.not_above read, in_step made.reading made.late timely),
      )

  -- The configuration of a usage is found under its name alone.
  same_config :
      (of_usage : String) (of_config : JwkConfig)
      → lookup of_usage keys_config ≡ some of_config
      → of_usage ≡ usage
      → of_config ≡ key_config
  same_config of_usage of_config known same = cc (known, configured, same)

  added-IsSteady :
      (ctx : Context) (of_usage : String) (of_config : JwkConfig) (w v : World) {key : Option Jwk}
      → lookup of_usage keys_config ≡ some of_config
      → IsInStep x skew w v
      → w.db_time ≤ v.db_time
      → Rotated x ctx of_config of_usage w v key
      → IsSteady w
      → IsSteady v
  added-IsSteady ctx of_usage of_config w v known in_step onward k steady =
      let row = k.row in
      let here : row.usage ≡ usage → of_config ≡ key_config =
        λ e. same_config of_usage of_config known (sym k.made.of_usage ∙ e) in
      rw k.added (
        Paced-append (interval - half_second) usage (life + second) (skew + half_second) w.db_time
          v.db_time w.rows row onward steady
          (λ c.
            let (short, early) =
              made_dates ctx of_usage of_config w v row k.made (here c.0) k.timely in_step in
            (short, omega arith))
          (All-imp
            (λ q listed c d.
              let due = k.due q (c.0 ∙ sym d.0 ∙ k.made.of_usage, c.1, listed) in
              due_gap (x.now k.reading) (x.now k.made.reading) row.created_at interval q long
                (subst (λ d. d ≤ℤ sub (x.now k.reading) q.created_at)
                  (ap (λ f. f.key.rotation) (here d.0) ∙ interval_is) due)
                (clock.onward k.reading k.made.reading k.onwards)
                (omega (arith, clock.not_below (x.now k.made.reading), k.made.created)))
            w.rows (All-Listed w.rows)))

  after-Counts :
      (request : Dao.JwkDeleteRequest) (now later : Time)
      → now ≤ later
      → (r : Row) → Counts usage later (after x request now r)
      → Counts usage now r
  unfolding is_active is_deletable
  after-Counts request now later onward r = elim (Bool-cases (Dao.targets request now r)) [
    | inl e ↦ rw e (λ c. (c.0, ground arith))
    | inr e ↦ rw e (λ c. (c.0, ground (arith, c.1)))
  ]

  revoked-IsSteady :
      (request : Dao.JwkDeleteRequest) (w v : World)
      → v.rows ≡ Dao.revoke_all x request w.db_time w.rows
      → w.db_time ≤ v.db_time
      → IsSteady w
      → IsSteady v
  revoked-IsSteady request w v changed onward steady =
      rw (changed, revoke_all-eq-map x request w.db_time w.rows)
        (Paced-map (interval - half_second) usage (after x request w.db_time) (life + second)
          (skew + half_second) w.db_time v.db_time onward
          (after-Counts request w.db_time v.db_time onward)
          (λ r. let (created, expires, _) = dates-after x request w.db_time r in (created, expires))
          w.rows steady)

  pub IsSteady-IsKept : (secret : Bytes) → IsKept x keys_config secret skew IsSteady
  IsSteady-IsKept secret = record {
    passing = IsSteady-passed;
    making = λ ctx of_usage of_config w v held known in_step onward k.
        added-IsSteady ctx of_usage of_config w v known in_step onward k;
    revoking = revoked-IsSteady;
  }
