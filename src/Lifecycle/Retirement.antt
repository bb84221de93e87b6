-- ===== src/Lifecycle/Retirement.antt =====
-- A key that is no longer active never comes back.
use service_json_keys.Prelude.{
  ◌≤◌, String, ◌≡◌, ◌≢◌, ◌∙◌, true, false, List, [], ◌∷◌, ◌++◌, arith, All, All-imp, All-append,
  All-at, Bool-cases, inl, inr,
}
use service_json_keys.Fault.{ok}
use service_json_keys.Clock.{Time}
use service_json_keys.Types.{Uuid, Context, Row}
use service_json_keys.Externals.{Externals}
use service_json_keys.World.{World}
use service_json_keys.Dao.{search, select_by_id, JwkDeleteRequest, targets}
use service_json_keys.Dao.Schema.{is_active, is_deletable, has_id}
use service_json_keys.Dao.Search.{search_sound}
use service_json_keys.Dao.Select.{select_by_id_sound}
use service_json_keys.Dao.Delete.{after, All-revoke_all, has_id-revoke_all}
use service_json_keys.Lifecycle.{Move, idle, add, retract, Reach, here, next}

-- A row of the identifier is not active at that time.
abbrev IsGone : Uuid → Time → Row → Type 0
IsGone id now q = q.id ≡ id → is_active now q ≡ false

-- The table holds the identifier, and no active row of it: its key has expired, or was revoked.
abbrev pub IsRetired : Uuid → World → Type 0
IsRetired id w = (has_id id w.rows ≡ true) × All (IsGone id w.db_time) w.rows

IsGone-later :
    (id : Uuid) (now later : Time) (q : Row) → now ≤ later → IsGone id now q → IsGone id later q
unfolding is_active
IsGone-later id now later q h gone same = ground (arith, gone same)

has_id-left :
    (id : Uuid) (rows more : List Row) → has_id id rows ≡ true → has_id id (rows ++ more) ≡ true
unfolding has_id
has_id-left id [] more h = cc
has_id-left id (r ∷ rows) more h = ground (arith, has_id-left id rows more)

module _ (x : Externals) (id : Uuid) where
  after-IsGone :
      (request : JwkDeleteRequest) (now later : Time) (q : Row)
      → now ≤ later
      → IsGone id now q
      → IsGone id later (after x request now q)
  unfolding is_active is_deletable
  after-IsGone request now later q h gone same = elim (Bool-cases (targets request now q)) [
    | inl t ↦ ground (arith, gone (ground arith))
    | inr t ↦ ground (arith, gone (ground arith))
  ]

  Move-IsRetired : (w v : World) → Move x w v → IsRetired id w → IsRetired id v
  Move-IsRetired w v (idle same onward) (held, gone) =
      rw same (held, All-imp (λ q. IsGone-later id w.db_time v.db_time q onward) w.rows gone)
  Move-IsRetired w v (add row same fresh filled alive onward) (held, gone) = rw same (
    has_id-left id w.rows (row ∷ []) held,
    All-append (IsGone id v.db_time) w.rows (row ∷ [])
        (All-imp (λ q. IsGone-later id w.db_time v.db_time q onward) w.rows gone)
        ((λ e. cc (e, fresh, held)), tt),
  )
  Move-IsRetired w v (retract request same onward) (held, gone) = rw same (
    has_id-revoke_all x request id w.db_time w.rows ∙ held,
    All-revoke_all x request (IsGone id w.db_time) (IsGone id v.db_time) w.db_time
        (λ q. after-IsGone request w.db_time v.db_time q onward) w.rows gone,
  )

  pub Reach-IsRetired : {w v : World} → Reach x w v → IsRetired id w → IsRetired id v
  Reach-IsRetired here h = h
  Reach-IsRetired {w} {v} (next {u = u} reach move) h =
      Move-IsRetired u v move (Reach-IsRetired reach h)

-- Once the table holds a key that is not active any more, because it has expired or its revocation
-- has passed, then whatever moves follow, it stays so: no selection gives the identifier, and no
-- search of any usage lists it.
pub IsRetired-forever :
    (x : Externals) (ctx : Context) (id : Uuid) (usage : String) (found : List Row) (w v u : World)
    → Reach x w v
    → IsRetired id w
    → search x ctx usage v ≡ (ok found, u)
    → IsRetired id v × ((r : Row) → (select_by_id x ctx id v).0 ≢ ok r) × All (λ r. r.id ≢ id) found
IsRetired-forever x ctx id usage found w v u reach h ran =
    let (held, gone) = Reach-IsRetired x id reach h in
    (
      (held, gone),
      λ r chosen.
          let (same, active, listed) = select_by_id_sound x ctx id v r chosen in
          cc (All-at (IsGone id v.db_time) r v.rows gone listed same, active),
      All-imp
          (λ r served same. cc (All-at (IsGone id v.db_time) r v.rows gone served.2 same, served.1))
          found (search_sound x ctx usage v u found ran).0,
    )
