-- ===== src/Dao/Insert.antt =====
-- PgJwkInsert, and the constraints of the table.
use service_json_keys.Prelude.{
  ◌≤◌, ◌≡◌, ◌≢◌, refl, ◌⊎◌, inl, inr, false, List, [], ◌∷◌, ◌++◌, arith,
}
use service_json_keys.Fault.{ok}
use service_json_keys.Types.{Uuid, Context, Row}
use service_json_keys.Externals.{Externals}
use service_json_keys.World.{World, query}
use service_json_keys.Dao.{insert, JwkInsertRequest, inserted}
use service_json_keys.Dao.Schema.{has_id, conflicts}

-- No two rows have one identifier, and no private key is empty: the constraints of the table.
abbrev pub IsTable : List Row → Type 0
IsTable [] = Unit
IsTable (r ∷ rows) = (has_id r.id rows ≡ false) × (r.private_key ≢ []) × IsTable rows

pub has_id-append :
    (id : Uuid) (rows : List Row) (r : Row)
    → r.id ≢ id
    → has_id id (rows ++ r ∷ []) ≡ has_id id rows
unfolding has_id
has_id-append id [] r h = ground arith
has_id-append id (s ∷ rows) r h = ground (arith, has_id-append id rows r h)

pub IsTable-append :
    (rows : List Row) (r : Row)
    → IsTable rows
    → has_id r.id rows ≡ false
    → r.private_key ≢ []
    → IsTable (rows ++ r ∷ [])
unfolding has_id
IsTable-append [] r h fresh filled = (refl, filled, tt)
IsTable-append (s ∷ rows) r (lone, full, h) fresh filled = (
  rw (has_id-append s.id rows r (ground arith)) lone,
  full,
  IsTable-append rows r h (ground arith) filled,
)

-- An insertion either gives the row as it is stored and appends it to the table, the identifier
-- being new there and the private key not empty; or it gives no row and leaves the table as it was.
pub insert_cases :
    (x : Externals) (ctx : Context) (request : JwkInsertRequest) (w : World)
    → (((insert x ctx request w).0 ≡ ok (inserted x request))
        × ((insert x ctx request w).1.rows ≡ w.rows ++ inserted x request ∷ [])
        × (has_id request.id w.rows ≡ false)
        × (request.private_key ≢ []))
      ⊎ (((r : Row) → (insert x ctx request w).0 ≢ ok r)
          × ((insert x ctx request w).1.rows ≡ w.rows))
unfolding insert conflicts
insert_cases x ctx request w = ground arith

-- An insertion keeps the constraints of the table, whether it succeeds or fails.
pub insert-IsTable :
    (x : Externals) (ctx : Context) (request : JwkInsertRequest) (w : World)
    → IsTable w.rows
    → IsTable (insert x ctx request w).1.rows
insert-IsTable x ctx request w h = elim (insert_cases x ctx request w) [
  | inl (_, added, fresh, filled) ↦
      rw added (IsTable-append w.rows (inserted x request) h fresh filled)
  | inr (_, kept) ↦ rw kept h
]

pub step-insert :
    (x : Externals) (ctx : Context) (request : JwkInsertRequest) (w : World)
    → w.step ≤ (insert x ctx request w).1.step
unfolding insert query
step-insert x ctx request w = ground arith
