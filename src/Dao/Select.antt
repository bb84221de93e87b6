-- ===== src/Dao/Select.antt =====
-- PgJwkSelect: the active row of an identifier, or that there is none.
use service_json_keys.Prelude.{
  ◌≡◌, refl, sym, ap, ◌∙◌, subst, inl, inr, ◌↔◌, Option, none, some, List, [], ◌∷◌, arith, ◌==◌,
  ==_iff, select, head?, All, Listed, All-select, All-Listed, All-imp, Listed-select, true,
  Option-cases,
}
use service_json_keys.Fault.{Result, ok, err, sentinel, jwk_select_not_found}
use service_json_keys.Types.{Uuid, Context, Handle, Row}
use service_json_keys.Externals.{Externals}
use service_json_keys.World.{World}
use service_json_keys.Dao.{select_by_id}
use service_json_keys.Dao.Schema.{is_active, active_keys, has_id}
use service_json_keys.Dao.Insert.{IsTable}

-- The row is active, has the identifier, and stands in the table.
abbrev pub IsSelected : Uuid → World → Row → Type 0
IsSelected id w r = (r.id ≡ id) × (is_active w.db_time r ≡ true) × Listed r w.rows

abbrev pub matching : Uuid → World → List Row
matching id w = select (λ r. r.id == id) (active_keys w.db_time w.rows)

IsSelected-matching : (id : Uuid) (w : World) → All (IsSelected id w) (matching id w)
unfolding active_keys
IsSelected-matching id w =
    let here = λ (r : Row). Listed r w.rows in
    let active = All-select here (is_active w.db_time) w.rows (All-Listed w.rows) in
    All-imp (λ r h. ((==_iff r.id id).0 h.1, h.0.1, h.0.0)) (matching id w)
      (All-select (λ r. here r × (is_active w.db_time r ≡ true)) (λ r. r.id == id)
        (active_keys w.db_time w.rows) active)

Listed-matching : (id : Uuid) (w : World) (r : Row) → IsSelected id w r → Listed r (matching id w)
unfolding active_keys
Listed-matching id w r (same, active, here) =
    Listed-select (λ q. q.id == id) r (active_keys w.db_time w.rows)
      (Listed-select (is_active w.db_time) r w.rows here active) ((==_iff r.id id).1 same)

abbrev answer : Option Row → Result Row
answer none = err (sentinel jwk_select_not_found)
answer (some r) = ok r

-- A selection changes no row.
pub rows-select_by_id :
    (x : Externals) (ctx : Context) (id : Uuid) (w : World)
    → (select_by_id x ctx id w).1.rows ≡ w.rows
unfolding select_by_id
rows-select_by_id x ctx id w = ground arith

pub select_by_id-ok :
    (x : Externals) (ctx : Context) (id : Uuid) (w : World) (r : Row)
    → (select_by_id x ctx id w).0 ≡ ok r
    → head? (matching id w) ≡ some r
unfolding select_by_id
select_by_id-ok x ctx id w r h = ground arith

select_by_id-healthy :
    (x : Externals) (ctx : Context) (handle : Handle) (id : Uuid) (w : World)
    → ctx.postgres ≡ some handle
    → x.database_fault w.step ≡ none
    → (select_by_id x ctx id w).0 ≡ answer (head? (matching id w))
unfolding select_by_id
select_by_id-healthy x ctx handle id w connected up = ground arith

All-head : (P : Row → Type 0) (rows : List Row) (r : Row) → All P rows → head? rows ≡ some r → P r
All-head P [] r h e = cc
All-head P (s ∷ rows) r (p, h) e = let same : s ≡ r = cc in subst P same p

head-Listed : (r : Row) (rows : List Row) → Listed r rows → (q : Row) × (head? rows ≡ some q)
head-Listed r [] h = elim h [ ]
head-Listed r (s ∷ rows) h = (s, refl)

-- What a selection by identifier gives is an active row of the table that has the identifier.
pub select_by_id_sound :
    (x : Externals) (ctx : Context) (id : Uuid) (w : World) (r : Row)
    → (select_by_id x ctx id w).0 ≡ ok r
    → IsSelected id w r
select_by_id_sound x ctx id w r h =
    All-head (IsSelected id w) (matching id w) r (IsSelected-matching id w)
      (select_by_id-ok x ctx id w r h)

has_id-Listed : (r : Row) (rows : List Row) → Listed r rows → has_id r.id rows ≡ true
unfolding has_id
has_id-Listed r [] h = elim h [ ]
has_id-Listed r (s ∷ rows) (inl e) = rw e (ground arith)
has_id-Listed r (s ∷ rows) (inr h) = ground (arith, has_id-Listed r rows h)

-- Where the table keeps its primary key, two rows that a selection is about are one.
pub IsTable-unique :
    (rows : List Row) (r s : Row)
    → IsTable rows
    → Listed r rows
    → Listed s rows
    → r.id ≡ s.id
    → r ≡ s
IsTable-unique [] r s t h k e = elim h [ ]
IsTable-unique (q ∷ rows) r s t (inl a) (inl b) e = sym a ∙ b
IsTable-unique (q ∷ rows) r s (lone, _, _) (inl a) (inr k) e =
    cc (has_id-Listed s rows k, a, e, lone)
IsTable-unique (q ∷ rows) r s (lone, _, _) (inr h) (inl b) e =
    cc (has_id-Listed r rows h, b, e, lone)
IsTable-unique (q ∷ rows) r s (_, _, t) (inr h) (inr k) e = IsTable-unique rows r s t h k e

-- With a database that answers, and the constraints of the table, a selection gives the active row
-- that has the identifier, if there is one.
pub select_by_id_complete :
    (x : Externals) (ctx : Context) (handle : Handle) (id : Uuid) (w : World) (r : Row)
    → ctx.postgres ≡ some handle
    → x.database_fault w.step ≡ none
    → IsTable w.rows
    → IsSelected id w r
    → (select_by_id x ctx id w).0 ≡ ok r
select_by_id_complete x ctx handle id w r connected up table chosen =
    let (q, first) = head-Listed r (matching id w) (Listed-matching id w r chosen) in
    let found = All-head (IsSelected id w) (matching id w) q (IsSelected-matching id w) first in
    let one = IsTable-unique w.rows q r table found.2 chosen.2 (found.0 ∙ sym chosen.0) in
    select_by_id-healthy x ctx handle id w connected up ∙ ap answer (first ∙ ap some one)

-- With a database that answers, a selection answers that the key was not found exactly when no
-- active row of the table has the identifier.
pub not_found_iff :
    (x : Externals) (ctx : Context) (handle : Handle) (id : Uuid) (w : World)
    → ctx.postgres ≡ some handle
    → x.database_fault w.step ≡ none
    → ((select_by_id x ctx id w).0 ≡ err (sentinel jwk_select_not_found))
      ↔ ((r : Row) → ¬ IsSelected id w r)
not_found_iff x ctx handle id w connected up =
    let healthy = select_by_id-healthy x ctx handle id w connected up in
    (
      λ missed r chosen.
          let (q, first) = head-Listed r (matching id w) (Listed-matching id w r chosen) in
          cc (healthy, missed, ap answer first),
      λ nothing. elim (Option-cases (head? (matching id w))) [
        | inl empty ↦ healthy ∙ ap answer empty
        | inr (q, first) ↦ absurd (
            nothing q
              (All-head (IsSelected id w) (matching id w) q (IsSelected-matching id w) first))
      ],
    )
