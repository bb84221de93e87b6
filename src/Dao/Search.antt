-- ===== src/Dao/Search.antt =====
-- PgJwkSearch: what a search lists, and in which order.
use service_json_keys.Prelude.{
  ℕ, suc, ◌≤◌, ◌<◌, String, ◌≡◌, subst, true, List, [], ◌∷◌, arith, str_eq, eq_iff, select, take,
  length, length-take, take_all-of_lt, All, All-take, All-imp, All-select, All-Listed, All-at,
  Listed, Listed-select,
}
use service_json_keys.Fault.{ok}
use service_json_keys.Types.{Context, Row}
use service_json_keys.Externals.{Externals}
use service_json_keys.World.{World, query}
use service_json_keys.Dao.{search, keys_max_batch_size}
use service_json_keys.Dao.Schema.{is_active, active_keys}
use service_json_keys.Dao.Order.{sort_newest}
use service_json_keys.Dao.Order.Laws.{
  IsNewestFirst, sort_newest-IsNewestFirst, take-IsNewestFirst, All-sort_newest, Any-sort_newest,
}

-- The rows that a search of the usage is about, before it is ordered and cut.
abbrev pub served : String → World → List Row
served usage w = select (λ r. str_eq r.usage usage) (active_keys w.db_time w.rows)

abbrev pub IsServed : String → World → Row → Type 0
IsServed usage w r = (r.usage ≡ usage) × (is_active w.db_time r ≡ true) × Listed r w.rows

pub search-eq-ok :
    (x : Externals) (ctx : Context) (usage : String) (w v : World) (found : List Row)
    → search x ctx usage w ≡ (ok found, v)
    → (found ≡ take keys_max_batch_size (sort_newest (served usage w)))
      × (v.rows ≡ w.rows)
      × (w.step ≤ v.step)
unfolding search query
search-eq-ok x ctx usage w v found h = ground arith

-- A search that is not cut logs nothing.
pub search-log :
    (x : Externals) (ctx : Context) (usage : String) (w v : World) (found : List Row)
    → search x ctx usage w ≡ (ok found, v)
    → length found < keys_max_batch_size
    → v.log ≡ w.log
unfolding search query
search-log x ctx usage w v found h few = ground arith

IsServed-served : (usage : String) (w : World) → All (IsServed usage w) (served usage w)
unfolding active_keys
IsServed-served usage w =
    let here = λ (r : Row). Listed r w.rows in
    let active = All-select here (is_active w.db_time) w.rows (All-Listed w.rows) in
    All-imp (λ r h. ((eq_iff r.usage usage).0 h.1, h.0.1, h.0.0)) (served usage w)
      (All-select (λ r. here r × (is_active w.db_time r ≡ true)) (λ r. str_eq r.usage usage)
        (active_keys w.db_time w.rows) active)

pub Listed-served :
    (usage : String) (w : World) (r : Row) → IsServed usage w r → Listed r (served usage w)
unfolding active_keys
Listed-served usage w r (of_usage, active, here) =
    Listed-select (λ q. str_eq q.usage usage) r (active_keys w.db_time w.rows)
      (Listed-select (is_active w.db_time) r w.rows here active) ((eq_iff r.usage usage).1 of_usage)

-- Every row that a search lists is of the usage, active, and in the table; the rows come newest
-- first, and there are at most 100. The table is left as it was.
pub search_sound :
    (x : Externals) (ctx : Context) (usage : String) (w v : World) (found : List Row)
    → search x ctx usage w ≡ (ok found, v)
    → All (IsServed usage w) found
      × IsNewestFirst found
      × (length found ≤ keys_max_batch_size)
      × (v.rows ≡ w.rows)
search_sound x ctx usage w v found h =
    let (is, kept, _) = search-eq-ok x ctx usage w v found h in
    let rows = served usage w in
    rw is (
      All-take (IsServed usage w) keys_max_batch_size (sort_newest rows)
          (All-sort_newest (IsServed usage w) rows (IsServed-served usage w)),
      take-IsNewestFirst keys_max_batch_size (sort_newest rows) (sort_newest-IsNewestFirst rows),
      omega (arith, length-take keys_max_batch_size (sort_newest rows)),
      kept,
    )

head-newest :
    (n : ℕ) (rows : List Row) (main : Row) (legacy : List Row)
    → main ∷ legacy ≡ take (suc n) rows
    → IsNewestFirst rows
    → All (λ q. q.created_at ≤ main.created_at) rows
head-newest n [] main legacy e h = tt
head-newest n (r ∷ rows) main legacy e (p, h) =
    let same : r ≡ main = cc in
    subst (λ (m : Row). All (λ q. q.created_at ≤ m.created_at) (r ∷ rows)) same (omega arith, p)

-- Below 100 results, a search misses no active row of the usage.
pub search_complete :
    (x : Externals) (ctx : Context) (usage : String) (w v : World) (found : List Row) (r : Row)
    → search x ctx usage w ≡ (ok found, v)
    → length found < keys_max_batch_size
    → IsServed usage w r
    → Listed r found
search_complete x ctx usage w v found r h few is_served =
    let rows = served usage w in
    let (is, _, _) = search-eq-ok x ctx usage w v found h in
    let sorted = Any-sort_newest (λ q. q ≡ r) rows (Listed-served usage w r is_served) in
    let uncut = take_all-of_lt keys_max_batch_size (sort_newest rows) (rw is at few) in
    rw is (rw uncut sorted)

-- The first row of a search is at least as new as every active row of the usage in the table, those
-- that the limit cuts off included.
pub search_main :
    (x : Externals) (ctx : Context) (usage : String) (w v : World) (main : Row) (legacy : List Row)
    (r : Row)
    → search x ctx usage w ≡ (ok (main ∷ legacy), v)
    → IsServed usage w r
    → r.created_at ≤ main.created_at
search_main x ctx usage w v main legacy r h is_served =
    let rows = served usage w in
    let (is, _, _) = search-eq-ok x ctx usage w v (main ∷ legacy) h in
    let sorted = Any-sort_newest (λ q. q ≡ r) rows (Listed-served usage w r is_served) in
    All-at (λ q. q.created_at ≤ main.created_at) r (sort_newest rows)
      (head-newest 99 (sort_newest rows) main legacy is (sort_newest-IsNewestFirst rows)) sorted
