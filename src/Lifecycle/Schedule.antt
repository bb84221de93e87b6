-- ===== src/Lifecycle/Schedule.antt =====
-- A revocation that is set for a later time: what is served until then.
use service_json_keys.Prelude.{
  ◌<◌, ◌≡◌, refl, ap, ◌∙◌, inl, inr, none, some, List, [], ◌∷◌, arith, true, Listed,
}
use service_json_keys.Fault.{ok}
use service_json_keys.Clock.{Time}
use service_json_keys.Types.{Context, Handle, Row}
use service_json_keys.Externals.{Externals}
use service_json_keys.World.{World}
use service_json_keys.Dao.{select_by_id, delete, JwkDeleteRequest, revoke, revoke_all, targets}
use service_json_keys.Dao.Schema.{is_active}
use service_json_keys.Dao.Insert.{IsTable}
use service_json_keys.Dao.Select.{select_by_id_complete}
use service_json_keys.Dao.Delete.{after, targets_iff, delete-ok, returned-cons, delete-IsTable}
use service_json_keys.Lifecycle.{Reach}
use service_json_keys.Lifecycle.History.{IsLater, Reach-Remembers}

module _ (x : Externals) (request : JwkDeleteRequest) (now : Time) where
  Listed-revoke_all :
      (rows : List Row) (s : Row)
      → Listed s rows
      → targets request now s ≡ true
      → Listed (revoke x request s) (revoke_all x request now rows)
  Listed-revoke_all [] s h target = elim h [ ]
  Listed-revoke_all (r ∷ rows) s (inl e) target = inl (ap (after x request now) e ∙ rw target)
  Listed-revoke_all (r ∷ rows) s (inr h) target = inr (Listed-revoke_all rows s h target)

-- A row that is marked already is, as a later state of itself, the same row.
marked-eq : (r s : Row) {time : Time} → r.deleted_at ≡ some time → IsLater r s → s ≡ r
marked-eq r s marked later = elim later.deletion [
  | inl none_yet ↦ absurd (cc)
  | inr (at, comment) ↦ ground arith
]

-- A revocation that is set for a later time leaves the key served until then. Once a deletion has
-- given a row, in a table that keeps its constraints, then whatever moves of the table follow,
-- other revocations of the same key included, as long as the database's clock is before the stored
-- time and before the expiration of the row, a selection of the identifier from a database that
-- answers it gives that row.
pub served_until :
    (x : Externals) (ctx c : Context) (handle : Handle) (request : JwkDeleteRequest) (w v : World)
    (r : Row)
    → IsTable w.rows
    → (delete x ctx request w).0 ≡ ok r
    → Reach x (delete x ctx request w).1 v
    → v.db_time < x.stamp request.now
    → v.db_time < r.expires_at
    → c.postgres ≡ some handle
    → x.database_fault v.step ≡ none
    → (select_by_id x c request.id v).0 ≡ ok r
unfolding is_active
served_until x ctx c handle request w v r table deleted reach future live connected up =
    let (first, changed, _) = delete-ok x ctx request w r deleted in
    let (s, here, target, same) = returned-cons x request w.db_time w.rows r first in
    let (id, _, _) = (targets_iff x request w.db_time s).0 target in
    let (constrained, remembers, _) =
      Reach-Remembers reach (delete-IsTable x ctx request w table) in
    let (q, found, later) =
      remembers r
        (rw (same, changed) (Listed-revoke_all x request w.db_time w.rows s here target)) in
    let marked : r.deleted_at ≡ some (x.stamp request.now) = rw same refl in
    let is = marked-eq r q marked later in
    let active : is_active v.db_time r ≡ true = ground arith in
    let of_id : r.id ≡ request.id = rw same id in
    select_by_id_complete x c handle request.id v r connected up constrained
      (of_id, active, rw (← is) found)
