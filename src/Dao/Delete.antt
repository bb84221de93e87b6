-- ===== src/Dao/Delete.antt =====
-- PgJwkDelete: which row it revokes, and whether the row then leaves the active keys.
use service_json_keys.Prelude.{
  ◌≤◌, ◌<◌, ◌≡◌, ◌≢◌, refl, sym, ap, ◌∙◌, ◌⊎◌, inl, inr, ◌↔◌, none, some, List, [], ◌∷◌, arith,
  head?, subst, Each, All, Listed, true, false, map, Bool-cases, List-cases, if◌then◌else◌,
}
use service_json_keys.Fault.{ok, err, sentinel, jwk_delete_not_found}
use service_json_keys.Clock.{Time}
use service_json_keys.Types.{Uuid, Context, Handle, Row}
use service_json_keys.Externals.{Externals}
use service_json_keys.World.{World}
use service_json_keys.Dao.{delete, JwkDeleteRequest, revoke, revoke_all, returned, targets}
use service_json_keys.Dao.Schema.{is_active, is_deletable, has_id}
use service_json_keys.Dao.Insert.{IsTable}

module _ (x : Externals) (request : JwkDeleteRequest) where
  -- A row that a deletion is about: of the identifier, not deleted before, not expired.
  abbrev pub IsTarget : Time → Row → Type 0
  IsTarget now r = (r.id ≡ request.id) × (r.deleted_at ≡ none) × (now < r.expires_at)

  -- The second row is the first one with the time, as the column holds it, and the comment of the
  -- request; its other columns are the same.
  pub record IsMarked (r s : Row) : Type 0 where
    pub id : s.id ≡ r.id
    pub private_key : s.private_key ≡ r.private_key
    pub public_key : s.public_key ≡ r.public_key
    pub usage : s.usage ≡ r.usage
    pub created_at : s.created_at ≡ r.created_at
    pub expires_at : s.expires_at ≡ r.expires_at
    pub deleted_at : s.deleted_at ≡ some (x.stamp request.now)
    pub deleted_comment : s.deleted_comment ≡ some request.comment

  -- What a deletion does at one place of the table.
  abbrev pub IsAfter : Time → Row → Row → Type 0
  IsAfter now r s = (IsTarget now r × IsMarked r s) ⊎ ((¬ IsTarget now r) × (s ≡ r))

  revoke-IsMarked : (r : Row) → IsMarked r (revoke x request r)
  revoke-IsMarked r = record {
    id = refl;
    private_key = refl;
    public_key = refl;
    usage = refl;
    created_at = refl;
    expires_at = refl;
    deleted_at = refl;
    deleted_comment = refl;
  }

  pub targets_iff : (now : Time) (r : Row) → (targets request now r ≡ true) ↔ IsTarget now r
  unfolding is_deletable
  targets_iff now r = ground arith

  -- A revoked row is served no more exactly when the stored revocation time is not after the
  -- database's clock.
  pub revoked-inactive_iff :
      (now : Time) (r : Row)
      → now < r.expires_at
      → (is_active now (revoke x request r) ≡ false) ↔ (x.stamp request.now ≤ now)
  unfolding is_active
  revoked-inactive_iff now r h = ground arith

  -- What stands in the table where `r` stood before.
  abbrev pub after : Time → Row → Row
  after now r = if targets request now r then revoke x request r else r

  pub revoke_all-eq-map :
      (now : Time) (rows : List Row) → revoke_all x request now rows ≡ map (after now) rows
  revoke_all-eq-map now [] = refl
  revoke_all-eq-map now (r ∷ rows) = ap (λ rest. after now r ∷ rest) (revoke_all-eq-map now rows)

  revoke_all-IsAfter :
      (now : Time) (rows : List Row) → Each (IsAfter now) rows (revoke_all x request now rows)
  revoke_all-IsAfter now [] = tt
  revoke_all-IsAfter now (r ∷ rows) = (
    elim (Bool-cases (targets request now r)) [
      | inl e ↦ rw e (inl ((targets_iff now r).0 e, revoke-IsMarked r))
      | inr e ↦ rw e (inr ((λ target. cc (e, (targets_iff now r).1 target)), refl))
    ],
    revoke_all-IsAfter now rows,
  )

  pub All-revoke_all :
      (P Q : Row → Type 0) (now : Time)
      → ((r : Row) → P r → Q (after now r))
      → (rows : List Row) → All P rows
      → All Q (revoke_all x request now rows)
  All-revoke_all P Q now step [] h = tt
  All-revoke_all P Q now step (r ∷ rows) (p, h) = (step r p, All-revoke_all P Q now step rows h)

  pub id-after : (now : Time) (r : Row) → (after now r).id ≡ r.id
  id-after now r = ground arith

  -- A revocation moves no date of a key, nor its usage.
  pub dates-after :
      (now : Time) (r : Row)
      → ((after now r).created_at ≡ r.created_at)
        × ((after now r).expires_at ≡ r.expires_at)
        × ((after now r).usage ≡ r.usage)
  dates-after now r = (ground arith, ground arith, ground arith)

  private_key-after : (now : Time) (r : Row) → (after now r).private_key ≡ r.private_key
  private_key-after now r = ground arith

  pub has_id-revoke_all :
      (id : Uuid) (now : Time) (rows : List Row)
      → has_id id (revoke_all x request now rows) ≡ has_id id rows
  unfolding has_id
  has_id-revoke_all id now [] = refl
  has_id-revoke_all id now (r ∷ rows) = rw (id-after now r, has_id-revoke_all id now rows)

  pub IsTable-revoke_all :
      (now : Time) (rows : List Row) → IsTable rows → IsTable (revoke_all x request now rows)
  IsTable-revoke_all now [] h = tt
  IsTable-revoke_all now (r ∷ rows) (lone, filled, h) = (
    rw (id-after now r, has_id-revoke_all r.id now rows) lone,
    λ e. filled (sym (private_key-after now r) ∙ e),
    IsTable-revoke_all now rows h,
  )

  returned-empty :
      (now : Time) (rows : List Row)
      → returned x request now rows ≡ []
      → (revoke_all x request now rows ≡ rows) × All (λ r. targets request now r ≡ false) rows
  returned-empty now [] h = (refl, tt)
  returned-empty now (r ∷ rows) h = elim (Bool-cases (targets request now r)) [
    | inl e ↦ cc (rw (e, returned) at h)
    | inr e ↦
        let (same, none_target) = returned-empty now rows (rw e at h) in
        (rw e (ap (λ rest. r ∷ rest) same), (e, none_target))
  ]

  pub returned-cons :
      (now : Time) (rows : List Row) (r : Row)
      → head? (returned x request now rows) ≡ some r
      → (s : Row) × Listed s rows × (targets request now s ≡ true) × (r ≡ revoke x request s)
  returned-cons now [] r h = cc
  returned-cons now (q ∷ rows) r h = elim (Bool-cases (targets request now q)) [
    | inl e ↦ let same : revoke x request q ≡ r = cc (rw e at h) in (q, inl refl, e, sym same)
    | inr e ↦
        let (s, here, target, same) = returned-cons now rows r (rw e at h) in
        (s, inr here, target, same)
  ]

module _ (x : Externals) (ctx : Context) (request : JwkDeleteRequest) (w : World) where
  pub delete-ok :
      (r : Row)
      → (delete x ctx request w).0 ≡ ok r
      → (head? (returned x request w.db_time w.rows) ≡ some r)
        × ((delete x ctx request w).1.rows ≡ revoke_all x request w.db_time w.rows)
        × ((delete x ctx request w).1.db_time ≡ w.db_time)
  unfolding delete
  delete-ok r h = ground arith

  pub delete-rows :
      ((delete x ctx request w).1.rows ≡ w.rows)
      ⊎ ((delete x ctx request w).1.rows ≡ revoke_all x request w.db_time w.rows)
  unfolding delete
  delete-rows = ground arith

  delete-not_ok :
      ((r : Row) → (delete x ctx request w).0 ≢ ok r)
      → ((delete x ctx request w).1.rows ≡ w.rows)
        ⊎ ((returned x request w.db_time w.rows ≡ [])
            × ((delete x ctx request w).1.rows ≡ revoke_all x request w.db_time w.rows))
  unfolding delete
  delete-not_ok h = elim (List-cases (returned x request w.db_time w.rows)) [
    | inl e ↦ ground arith
    | inr (q, rest, e) ↦ ground (arith, h q)
  ]

  pub delete-healthy :
      (handle : Handle)
      → ctx.postgres ≡ some handle
      → x.database_fault w.step ≡ none
      → (delete x ctx request w).0 ≡ (elim (head? (returned x request w.db_time w.rows)) [
        | none ↦ err (sentinel jwk_delete_not_found)
        | some r ↦ ok r
      ])
  unfolding delete
  delete-healthy handle connected up = ground arith

  -- A deletion keeps the constraints of the table.
  pub delete-IsTable : IsTable w.rows → IsTable (delete x ctx request w).1.rows
  delete-IsTable h = elim delete-rows [
    | inl kept ↦ rw kept h
    | inr changed ↦ rw changed (IsTable-revoke_all x request w.db_time w.rows h)
  ]

  -- A deletion that gives no row has changed none.
  pub failed_delete :
      ((r : Row) → (delete x ctx request w).0 ≢ ok r) → (delete x ctx request w).1.rows ≡ w.rows
  failed_delete h = elim (delete-not_ok h) [
    | inl kept ↦ kept
    | inr (empty, changed) ↦ changed ∙ (returned-empty x request w.db_time w.rows empty).0
  ]

  -- A deletion that gives a row has found a row of the identifier that was neither deleted nor
  -- expired, and gives it with the request's time, as the column holds it, and the request's
  -- comment in the two columns of the deletion, and the other columns as they were. In the table,
  -- each row of that kind is changed in the same way in its place, and each other row is left as it
  -- was.
  pub delete_sound :
      (r : Row)
      → (delete x ctx request w).0 ≡ ok r
      → (s : Row) × Listed s w.rows
        × IsTarget x request w.db_time s
        × IsMarked x request s r
        × Each (IsAfter x request w.db_time) w.rows (delete x ctx request w).1.rows
  delete_sound r h =
      let (first, changed, _) = delete-ok r h in
      let (s, here, target, same) = returned-cons x request w.db_time w.rows r first in
      (
        s,
        here,
        (targets_iff x request w.db_time s).0 target,
        subst (IsMarked x request s) (sym same) (revoke-IsMarked x request s),
        rw changed (revoke_all-IsAfter x request w.db_time w.rows),
      )
