-- ===== src/Deployment/Availability.antt =====
-- How long after a rotation a usage is sure to have an active key.
use service_json_keys.Prelude.{
  ℕ, ◌+◌, ◌≤◌, ◌<◌, String, ◌≡◌, ◌≢◌, refl, sym, ap, ◌∙◌, subst, ◌⊎◌, inl, inr, true, some, none,
  List, [], ◌∷◌, arith, map, All, All-append, All-at, Any-append_left, Listed,
}
use service_json_keys.Prelude.Int.{pos, ◌<ℤ◌}
use service_json_keys.Fault.{ok}
use service_json_keys.Encoding.{Bytes}
use service_json_keys.Clock.{Time, sub, add_pos, second, max_int64}
use service_json_keys.Types.{Context, Row}
use service_json_keys.Externals.{Externals, IsSecretbox, IsJson, IsRandom}
use service_json_keys.Config.{JwkConfig, KeysConfig, lookup}
use service_json_keys.World.{World}
use service_json_keys.Dao
use service_json_keys.Dao.Schema.{is_active}
use service_json_keys.Dao.Delete.{after, dates-after, revoke_all-eq-map, All-revoke_all}
use service_json_keys.Dao.Search.{IsServed, search_complete}
use service_json_keys.Core.Gen.Rotation.{Rotated}
use service_json_keys.Core.RotateAll.{Transactor, IsTransactor, JwkRotateAllResponse, rotate_all}
use service_json_keys.Core.RotateAll.Laws.{IsEnsured, rotate_all_sound}
use service_json_keys.Deployment.{IsClock, IsInStep, half_second, History, rotated}
use service_json_keys.Deployment.Induction.{IsKept, History-IsKept}

-- A key that is current at a reading of the clock was made an interval before it, or later.
current_since :
    (read created : Time) (interval : ℕ) (stored : Time)
    → half_second ≤ interval
    → interval ≤ max_int64
    → read ≤ stored + half_second
    → (sub read created <ℤ pos interval) ⊎ (created ≡ stored)
    → read ≤ created + interval
unfolding sub
current_since read created interval stored long short rounded (inl young) = ground arith
current_since read created interval stored long short rounded (inr now) = omega arith

Listed-map : (f : Row → Row) (r : Row) (rows : List Row) → Listed r rows → Listed (f r) (map f rows)
Listed-map f r [] h = elim h [ ]
Listed-map f r (q ∷ rows) (inl e) = inl (ap f e)
Listed-map f r (q ∷ rows) (inr h) = inr (Listed-map f r rows h)

-- A row of the usage lasts for the lifetime of its keys.
abbrev pub IsLasting : String → ℕ → Row → Type 0
IsLasting usage life r = r.usage ≡ usage → r.created_at + life ≤ r.expires_at + second

-- The table has a row of the usage that expires at that time, or later.
abbrev pub HasUntil : String → Time → World → Type 0
HasUntil usage end w = (r : Row) × Listed r w.rows × (r.usage ≡ usage) × (end ≤ r.expires_at)

module _ (x : Externals) (keys_config : KeysConfig) (secret : Bytes) (skew : ℕ) (usage : String)
    (key_config : JwkConfig) (life : ℕ) (clock : IsClock x)
    (configured : lookup usage keys_config ≡ some key_config)
    (life_is : key_config.key.ttl ≡ pos life) where
  made-IsLasting :
      (ctx : Context) (of_usage : String) (of_config : JwkConfig) (w v : World) {key : _}
      → lookup of_usage keys_config ≡ some of_config
      → (k : Rotated x ctx of_config of_usage w v key) → IsLasting usage life k.row
  made-IsLasting ctx of_usage of_config w v known k same =
      let read = x.now k.made.reading in
      let config_is : of_config ≡ key_config = cc (known, configured, k.made.of_usage, same) in
      let expires_at : k.row.expires_at ≡ x.stamp (read + life) =
        rw (k.made.expires, config_is, life_is, add_pos read life) refl in
      omega (arith, k.made.created, expires_at, clock.not_above read, clock.not_below (read + life))

  IsLasting-IsKept : IsKept x keys_config secret skew (λ w. All (IsLasting usage life) w.rows)
  IsLasting-IsKept = record {
    passing = λ w v same onward lasting. rw same lasting;
    making = λ ctx of_usage of_config w v held known in_step onward k lasting. rw k.added (
        All-append (IsLasting usage life) w.rows (k.row ∷ []) lasting
          (made-IsLasting ctx of_usage of_config w v known k, tt));
    revoking = λ request w v changed onward lasting. rw changed (
        All-revoke_all x request (IsLasting usage life) (IsLasting usage life) w.db_time
          (λ r long same.
            let (created, expires, of_usage) = dates-after x request w.db_time r in
            omega (arith, created, expires, long (sym of_usage ∙ same)))
          w.rows lasting);
  }

  HasUntil-IsKept : (end : Time) → IsKept x keys_config secret skew (HasUntil usage end)
  HasUntil-IsKept end = record {
    passing = λ w v same onward (r, listed, of_usage, late). (r, rw same listed, of_usage, late);
    making = λ ctx of_usage of_config w v held known in_step onward k (r, listed, of, late).
        (r, rw k.added (Any-append_left (λ q. q ≡ r) w.rows (k.row ∷ []) listed), of, late);
    revoking = λ request w v changed onward (r, listed, same, late).
        let (_, expires, of_usage) = dates-after x request w.db_time r in
        (
          after x request w.db_time r,
          rw (changed, revoke_all-eq-map x request w.db_time w.rows)
              (Listed-map (after x request w.db_time) r w.rows listed),
          of_usage ∙ same,
          omega (arith, expires),
        );
  }

module _ (x : Externals) (keys_config : KeysConfig) (secret : Bytes) (skew : ℕ) (usage : String)
    (key_config : JwkConfig) (interval life : ℕ) (box : IsSecretbox x) (json : IsJson x)
    (random : IsRandom x) (clock : IsClock x)
    (known : All (λ e. lookup e.0 keys_config ≡ some e.1) keys_config)
    (entry : Listed (usage, key_config) keys_config)
    (interval_is : key_config.key.rotation ≡ pos interval) (life_is : key_config.key.ttl ≡ pos life)
    (long : half_second ≤ interval) (short : interval ≤ max_int64) where
  configured : lookup usage keys_config ≡ some key_config
  configured =
      All-at (λ e. lookup e.0 keys_config ≡ some e.1) (usage, key_config) keys_config known entry

  rotated-HasUntil :
      (t : Transactor) (ctx : Context) (response : JwkRotateAllResponse) (lag : ℕ) (u v : World)
      → IsTransactor t
      → rotate_all x keys_config t ctx u ≡ (ok response, v)
      → All (IsLasting usage life) v.rows
      → u.db_time ≤ x.now u.step + lag
      → (end : Time) → end + interval + lag + second ≤ u.db_time + life
      → HasUntil usage end v
  rotated-HasUntil t ctx response lag u v transactor ran lasting close end before =
      elim (rotate_all_sound x keys_config box json random t ctx u transactor known) [
        | inr (failed, _) ↦ absurd (failed response (ap (λ p. p.0) ran))
        | inl (_, (ensured, _)) ↦
            let (r, listed, same, (n, late, current)) =
              All-at (IsEnsured x u.step v.rows) (usage, key_config) keys_config
                (subst (λ o. All (IsEnsured x u.step o.rows) keys_config) (ap (λ p. p.1) ran)
                  ensured)
                entry in
            let since =
              current_since (x.now n) r.created_at interval (x.stamp (x.now n)) long short
                (clock.not_below (x.now n))
                (subst (λ d. (sub (x.now n) r.created_at <ℤ d) ⊎ (r.created_at ≡ x.stamp (x.now n)))
                  interval_is current) in
            let lasts = All-at (IsLasting usage life) r v.rows lasting listed same in
            (r, listed, same, omega (arith, since, lasts, clock.onward u.step n late))
      ]

  pub key_active :
      (t : Transactor) (ctx : Context) (response : JwkRotateAllResponse) (lag : ℕ) (w u v y : World)
      → w.rows ≡ []
      → History x keys_config secret skew w u
      → ctx.master_key ≡ some secret
      → IsTransactor t
      → rotate_all x keys_config t ctx u ≡ (ok response, v)
      → u.db_time ≤ v.db_time
      → IsInStep x skew u v
      → u.db_time ≤ x.now u.step + lag
      → History x keys_config secret skew v y
      → ((r : Row) → Listed r y.rows → r.usage ≡ usage → r.deleted_at ≡ none)
      → y.db_time + interval + lag + second < u.db_time + life
      → (r : Row) × IsServed usage y r
  unfolding is_active
  key_active t ctx response lag w u v y empty history held transactor ran onward in_step close later
        undeleted before =
      let whole : History x keys_config secret skew w v =
        rotated t ctx history held transactor (sym (ap (λ p. p.1) ran)) onward in_step in
      let lasting =
        History-IsKept x keys_config secret skew (λ o. All (IsLasting usage life) o.rows) box json
          random
          (IsLasting-IsKept x keys_config secret skew usage key_config life clock configured
            life_is)
          known whole (rw empty tt) in
      let has =
        rotated-HasUntil t ctx response lag u v transactor ran lasting close (y.db_time + 1)
          (omega arith) in
      let (r, listed, same, late) =
        History-IsKept x keys_config secret skew (HasUntil usage (y.db_time + 1)) box json random
          (HasUntil-IsKept x keys_config secret skew usage key_config life clock configured life_is
            (y.db_time + 1))
          known later has in
      let alive = undeleted r listed same in
      let active : is_active y.db_time r ≡ true = ground arith in (r, (same, active, listed))

  -- Let a rotation succeed in a deployment that began with an empty table, whose master key is the
  -- deployment's; let the clock of the service not go back, nor the database's during this
  -- rotation, and let the former be ahead of the database's by a skew at most during each rotation,
  -- and behind it by a lag at most when this one began; and let columns hold the nearest second.
  -- Let the rotation interval of the usage be half a second or more, and no more than an int64
  -- holds. As long as less than the lifetime of the usage's keys, without the rotation interval,
  -- the lag and one second, has passed on the database's clock since then, and no key of the usage
  -- has been revoked, a search of the usage lists a key, whatever other calls were made, rotations
  -- that fail or never run included.
  pub key_available :
      (t : Transactor) (ctx c : Context) (response : JwkRotateAllResponse) (lag : ℕ)
      (w u v y e : World) (found : List Row)
      → w.rows ≡ []
      → History x keys_config secret skew w u
      → ctx.master_key ≡ some secret
      → IsTransactor t
      → rotate_all x keys_config t ctx u ≡ (ok response, v)
      → u.db_time ≤ v.db_time
      → IsInStep x skew u v
      → u.db_time ≤ x.now u.step + lag
      → History x keys_config secret skew v y
      → ((r : Row) → Listed r y.rows → r.usage ≡ usage → r.deleted_at ≡ none)
      → y.db_time + interval + lag + second < u.db_time + life
      → Dao.search x c usage y ≡ (ok found, e)
      → found ≢ []
  key_available t ctx c response lag w u v y e found empty history held transactor ran onward
        in_step close later undeleted before searched nothing =
      let (r, served) =
        key_active t ctx response lag w u v y empty history held transactor ran onward in_step close
          later undeleted before in
      rw nothing at
        (search_complete x c usage y e found r searched (rw nothing (omega arith)) served)
