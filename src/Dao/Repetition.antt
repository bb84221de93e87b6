-- ===== src/Dao/Repetition.antt =====
-- A second revocation of the same key, through PgJwkDelete.
use service_json_keys.Prelude.{
  ◌≡◌, refl, ◌∙◌, inl, inr, none, some, List, [], ◌∷◌, arith, Bool-cases, false,
}
use service_json_keys.Fault.{ok, err, sentinel, jwk_delete_not_found}
use service_json_keys.Clock.{Time}
use service_json_keys.Types.{Context, Handle, Row}
use service_json_keys.Externals.{Externals}
use service_json_keys.World.{World}
use service_json_keys.Dao.{delete, JwkDeleteRequest, revoke_all, returned, targets}
use service_json_keys.Dao.Schema.{is_deletable}
use service_json_keys.Dao.Delete.{after, delete-ok, delete-healthy}

module _ (x : Externals) (request again : JwkDeleteRequest) (now : Time) where
  not_targeted :
      (r : Row) → again.id ≡ request.id → targets again now (after x request now r) ≡ false
  unfolding is_deletable
  not_targeted r same = elim (Bool-cases (targets request now r)) [
    | inl e ↦ ground arith
    | inr e ↦ ground arith
  ]

  returned-revoke_all :
      (rows : List Row)
      → again.id ≡ request.id
      → returned x again now (revoke_all x request now rows) ≡ []
  returned-revoke_all [] same = refl
  returned-revoke_all (r ∷ rows) same = rw (not_targeted r same) (returned-revoke_all rows same)

-- Once a deletion has given a row, another deletion of the same identifier, on a database that
-- answers, fails with the key not being found, whatever its time and its comment are.
pub delete-delete :
    (x : Externals) (ctx : Context) (handle : Handle) (request again : JwkDeleteRequest) (w : World)
    (r : Row)
    → ctx.postgres ≡ some handle
    → again.id ≡ request.id
    → (delete x ctx request w).0 ≡ ok r
    → x.database_fault (delete x ctx request w).1.step ≡ none
    → (delete x ctx again (delete x ctx request w).1).0 ≡ err (sentinel jwk_delete_not_found)
delete-delete x ctx handle request again w r connected same deleted up =
    let v = (delete x ctx request w).1 in
    let (first, changed, still) = delete-ok x ctx request w r deleted in
    let empty : returned x again v.db_time v.rows ≡ [] =
      (λ i. returned x again (still i) (changed i))
      ∙ returned-revoke_all x request again w.db_time w.rows same in
    delete-healthy x ctx again v handle connected up ∙ rw empty
