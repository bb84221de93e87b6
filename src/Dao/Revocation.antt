-- ===== src/Dao/Revocation.antt =====
-- A revocation seen through the other statements: whether the revoked key is still served.
use service_json_keys.Prelude.{
  ◌≤◌, ◌≡◌, sym, ◌∙◌, none, some, List, true, false, All, All-imp, All-Listed, All-at, Listed,
}
use service_json_keys.Fault.{ok, err, sentinel, jwk_select_not_found}
use service_json_keys.Clock.{Time}
use service_json_keys.Types.{Uuid, Context, Handle, Row}
use service_json_keys.Externals.{Externals}
use service_json_keys.World.{World}
use service_json_keys.Dao.{select_by_id, delete, JwkDeleteRequest, revoke_all, targets}
use service_json_keys.Dao.Schema.{is_active}
use service_json_keys.Dao.Insert.{IsTable}
use service_json_keys.Dao.Select.{IsTable-unique, not_found_iff}
use service_json_keys.Dao.Delete.{
  after, targets_iff, id-after, All-revoke_all, delete-ok, returned-cons, revoked-inactive_iff,
}

-- What of the identifier is left after a deletion is served no more.
abbrev IsGone : Uuid → Time → Row → Type 0
IsGone id now q = q.id ≡ id → is_active now q ≡ false

module _ (x : Externals) (request : JwkDeleteRequest) (now : Time) where
  after-IsGone :
      (s r : Row)
      → targets request now s ≡ true
      → x.stamp request.now ≤ now
      → (r.id ≡ request.id → r ≡ s)
      → IsGone request.id now (after x request now r)
  after-IsGone s r target past one same =
      let is = one (sym (id-after x request now r) ∙ same) in
      let live = (targets_iff x request now s).0 target in
      rw (is, target) ((revoked-inactive_iff x request now s live.2).1 past)

  revoke_all-IsGone :
      (rows : List Row) (s : Row)
      → IsTable rows
      → Listed s rows
      → targets request now s ≡ true
      → x.stamp request.now ≤ now
      → All (IsGone request.id now) (revoke_all x request now rows)
  revoke_all-IsGone rows s table here target past =
      let id = ((targets_iff x request now s).0 target).0 in
      All-revoke_all x request (λ r. r.id ≡ request.id → r ≡ s) (IsGone request.id now) now
        (λ r. after-IsGone s r target past) rows
        (All-imp (λ r k same. IsTable-unique rows r s table k here (same ∙ sym id)) rows
          (All-Listed rows))

-- Once a deletion has given a row, in a table that keeps its constraints, and the stored time is
-- not after the database's clock, a selection of the identifier from a database that answers it
-- answers that the key was not found.
pub select_by_id-delete :
    (x : Externals) (ctx : Context) (handle : Handle) (request : JwkDeleteRequest) (w : World)
    (r : Row)
    → ctx.postgres ≡ some handle
    → IsTable w.rows
    → (delete x ctx request w).0 ≡ ok r
    → x.stamp request.now ≤ w.db_time
    → x.database_fault (delete x ctx request w).1.step ≡ none
    → (select_by_id x ctx request.id (delete x ctx request w).1).0
      ≡ err (sentinel jwk_select_not_found)
select_by_id-delete x ctx handle request w r connected table deleted past up =
    let (first, changed, still) = delete-ok x ctx request w r deleted in
    let (s, here, target, _) = returned-cons x request w.db_time w.rows r first in
    let gone = revoke_all-IsGone x request w.db_time w.rows s table here target past in
    (not_found_iff x ctx handle request.id (delete x ctx request w).1 connected up).1 λ q chosen.
      let inactive =
        All-at (IsGone request.id w.db_time) q (revoke_all x request w.db_time w.rows) gone
          (rw changed at chosen.2) chosen.0 in
      cc (rw still at chosen.1, inactive)
