-- ===== src/Deployment.antt =====
-- How many keys of a usage are active at once. internal/core/jwkGen.go adds a key when the newest
-- is as old as the rotation interval, and gives it a lifetime; internal/dao/pg.jwkSearch.go lists
-- the active keys up to a limit.
pub mod Spacing
pub mod Induction
pub mod Steps
pub mod Limits
pub mod Halves
pub mod Fetch
pub mod Availability
use service_json_keys.Prelude.{ℕ, some, ◌+◌, ◌/◌, ◌≤◌, ◌<◌, String, ◌≡◌, List, [], ◌∷◌, All}
use service_json_keys.Prelude.Int.{pos}
use service_json_keys.Clock.{Time, second}
use service_json_keys.Encoding.{Bytes}
use service_json_keys.Types.{Context, Row}
use service_json_keys.Externals.{Externals}
use service_json_keys.Config.{JwkConfig, KeysConfig, lookup}
use service_json_keys.World.{World}
use service_json_keys.Dao
use service_json_keys.Core.RotateAll.{Transactor, IsTransactor, rotate_all}

-- Half of the resolution of a column of type timestamp(0).
abbrev pub half_second : ℕ
half_second = second / 2

-- What is relied upon of time: the clock of the service does not go back from a call to the next,
-- and a column of type timestamp(0) holds the nearest second.
pub record IsClock (x : Externals) : Type 0 where
  pub onward : (m n : ℕ) → m ≤ n → x.now m ≤ x.now n
  pub not_above : (t : Time) → x.stamp t ≤ t + half_second
  pub not_below : (t : Time) → t ≤ x.stamp t + half_second

-- During the calls from the first state to the second, the clock of the service is ahead of the
-- database's by the skew at most.
abbrev pub IsInStep : Externals → ℕ → World → World → Type 0
IsInStep x skew w v = (n : ℕ) → w.step ≤ n → n < v.step → x.now n ≤ w.db_time + skew

module _ (x : Externals) (keys_config : KeysConfig) (secret : Bytes) (skew : ℕ) where
  -- What happens to the table of a deployment, one call after another: rotations under the master
  -- key of the deployment, which may fail; revocations; and everything that adds and changes no
  -- row, for which time goes on.
  pub data History (w : World) : World → Type 0 where
    begun : History w w
    rotated :
        {u v : World} (t : Transactor) (ctx : Context)
        → History w u
        → ctx.master_key ≡ some secret
        → IsTransactor t
        → v ≡ (rotate_all x keys_config t ctx u).1
        → u.db_time ≤ v.db_time
        → IsInStep x skew u v
        → History w v
    revoked :
        {u v : World} (ctx : Context) (request : Dao.JwkDeleteRequest)
        → History w u
        → v ≡ (Dao.delete x ctx request u).1
        → History w v
    passed : {u v : World} → History w u → v.rows ≡ u.rows → u.db_time ≤ v.db_time → History w v

  pub History-trans : {w u v : World} → History w u → History u v → History w v
  History-trans h begun = h
  History-trans h (rotated t ctx k held transactor is onward in_step) =
      rotated t ctx (History-trans h k) held transactor is onward in_step
  History-trans h (revoked ctx request k is) = revoked ctx request (History-trans h k) is
  History-trans h (passed k same onward) = passed (History-trans h k) same onward
