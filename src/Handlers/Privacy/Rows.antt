-- ===== src/Handlers/Privacy/Rows.antt =====
-- The table with its private keys blanked out, under the statements that read it.
use service_json_keys.Prelude.{
  ℕ, zero, suc, String, ◌≡◌, refl, ap, inl, inr, Bool, none, List, [], ◌∷◌, map, arith, leb, ◌==◌,
  str_eq, select, take, length, Bool-cases,
}
use service_json_keys.Fault.{Result, ok, err, panic}
use service_json_keys.Clock.{Time}
use service_json_keys.Types.{Uuid, Context, Row}
use service_json_keys.Externals.{Externals}
use service_json_keys.World.{World}
use service_json_keys.Dao.{search, select_by_id, keys_max_batch_size}
use service_json_keys.Dao.Schema.{is_active, active_keys}
use service_json_keys.Dao.Order.{place, sort_newest}
use service_json_keys.Dao.Search.{served}
use service_json_keys.Dao.Select.{matching}

abbrev pub hide : Row → Row
hide r = record r { private_key = [] }

-- What is left of a state without the private keys, and of a context without the master key.
abbrev pub publish : World → World
publish w = record w { rows = map hide w.rows }

abbrev pub public_context : Context → Context
public_context ctx = record ctx { master_key = none }

select-map-hide :
    (p : Row → Bool)
    → ((r : Row) → p (hide r) ≡ p r)
    → (rows : List Row) → select p (map hide rows) ≡ map hide (select p rows)
select-map-hide p same [] = refl
select-map-hide p same (r ∷ rows) = elim (Bool-cases (p r)) [
  | inl e ↦ rw (same r, e, select-map-hide p same rows)
  | inr e ↦ rw (same r, e, select-map-hide p same rows)
]

place-hide : (r : Row) (rows : List Row) → place (hide r) (map hide rows) ≡ map hide (place r rows)
unfolding place
place-hide r [] = refl
place-hide r (s ∷ rows) = elim (Bool-cases (leb s.created_at r.created_at)) [
  | inl e ↦ rw e
  | inr e ↦ rw (e, place-hide r rows)
]

sort_newest-hide : (rows : List Row) → sort_newest (map hide rows) ≡ map hide (sort_newest rows)
unfolding sort_newest
sort_newest-hide [] = refl
sort_newest-hide (r ∷ rows) = rw (sort_newest-hide rows) (place-hide r (sort_newest rows))

take-hide : (n : ℕ) (rows : List Row) → take n (map hide rows) ≡ map hide (take n rows)
take-hide zero rows = refl
take-hide (suc n) [] = refl
take-hide (suc n) (r ∷ rows) = ap (λ rest. hide r ∷ rest) (take-hide n rows)

length-hide : (rows : List Row) → length (map hide rows) ≡ length rows
length-hide [] = refl
length-hide (r ∷ rows) = ap suc (length-hide rows)

active_keys-hide :
    (now : Time) (rows : List Row)
    → active_keys now (map hide rows) ≡ map hide (active_keys now rows)
unfolding active_keys is_active
active_keys-hide now rows = select-map-hide (is_active now) (λ r. refl) rows

served-publish : (usage : String) (w : World) → served usage (publish w) ≡ map hide (served usage w)
served-publish usage w =
    rw (active_keys-hide w.db_time w.rows)
      (select-map-hide (λ r. str_eq r.usage usage) (λ r. refl) (active_keys w.db_time w.rows))

matching-publish : (id : Uuid) (w : World) → matching id (publish w) ≡ map hide (matching id w)
matching-publish id w =
    rw (active_keys-hide w.db_time w.rows)
      (select-map-hide (λ r. r.id == id) (λ r. refl) (active_keys w.db_time w.rows))

abbrev hidden : Result (List Row) → Result (List Row)
hidden (ok rows) = ok (map hide rows)
hidden (err e) = err e
hidden panic = panic

pub rows_search :
    (x : Externals) (ctx : Context) (usage : String) (w : World)
    → (search x (public_context ctx) usage (publish w)).0 ≡ hidden (search x ctx usage w).0
unfolding search
rows_search x ctx usage w =
    let cut = take keys_max_batch_size (sort_newest (served usage w)) in
    let same : take keys_max_batch_size (sort_newest (served usage (publish w))) ≡ map hide cut =
      rw (served-publish usage w, sort_newest-hide (served usage w))
        (take-hide keys_max_batch_size (sort_newest (served usage w))) in
    ground (arith, same, length-hide cut)

pub rows_world :
    (x : Externals) (ctx : Context) (usage : String) (w : World)
    → (search x (public_context ctx) usage (publish w)).1 ≡ publish (search x ctx usage w).1
unfolding search
rows_world x ctx usage w =
    let cut = take keys_max_batch_size (sort_newest (served usage w)) in
    let same : take keys_max_batch_size (sort_newest (served usage (publish w))) ≡ map hide cut =
      rw (served-publish usage w, sort_newest-hide (served usage w))
        (take-hide keys_max_batch_size (sort_newest (served usage w))) in
    ground (arith, same, length-hide cut)

abbrev hidden_row : Result Row → Result Row
hidden_row (ok row) = ok (hide row)
hidden_row (err e) = err e
hidden_row panic = panic

pub row_select :
    (x : Externals) (ctx : Context) (id : Uuid) (w : World)
    → (select_by_id x (public_context ctx) id (publish w)).0
      ≡ hidden_row (select_by_id x ctx id w).0
unfolding select_by_id
row_select x ctx id w = ground (arith, matching-publish id w)
