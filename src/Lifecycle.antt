-- ===== src/Lifecycle.antt =====
-- The life of the table `keys` as a state machine: what a statement of internal/dao may do to it,
-- and what time does. It is the specification that the operations of internal/dao, internal/core
-- and internal/handlers are held against.
pub mod History
pub mod Follows
pub mod Statements
pub mod Services
pub mod Retirement
pub mod Schedule
use service_json_keys.Prelude.{◌≤◌, ◌≡◌, ◌≢◌, refl, false, none, [], ◌∷◌, ◌++◌, arith}
use service_json_keys.Types.{Row}
use service_json_keys.Externals.{Externals}
use service_json_keys.World.{World}
use service_json_keys.Dao.{JwkDeleteRequest, revoke_all}
use service_json_keys.Dao.Schema.{has_id}

-- One move of the table, during which the clock may go on: nothing, a row of a new identifier that
-- is not deleted, or a revocation.
pub data Move (x : Externals) (w v : World) : Type 0 where
  idle : v.rows ≡ w.rows → w.db_time ≤ v.db_time → Move x w v
  add :
      (row : Row)
      → v.rows ≡ w.rows ++ row ∷ []
      → has_id row.id w.rows ≡ false
      → row.private_key ≢ []
      → row.deleted_at ≡ none
      → w.db_time ≤ v.db_time
      → Move x w v
  retract :
      (request : JwkDeleteRequest)
      → v.rows ≡ revoke_all x request w.db_time w.rows
      → w.db_time ≤ v.db_time
      → Move x w v

-- Any number of moves.
pub data Reach (x : Externals) (w : World) : World → Type 0 where
  here : Reach x w w
  next : {u v : World} → Reach x w u → Move x u v → Reach x w v

pub once : {x : Externals} {w v : World} → Move x w v → Reach x w v
once move = next here move

pub Reach-trans : {x : Externals} {w u v : World} → Reach x w u → Reach x u v → Reach x w v
Reach-trans h here = h
Reach-trans h (next r move) = next (Reach-trans h r) move
