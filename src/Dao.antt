-- ===== src/Dao.antt =====
-- internal/dao: the four statements on the table `keys`, and the view `active_keys` that two of
-- them read through (internal/models/migrations/20260722072945_initial_schema.up.sql). Rows that
-- tie under ORDER BY keep the table's order here; PostgreSQL promises none.
pub mod Schema
pub mod Order
pub mod Search
pub mod Insert
pub mod Select
pub mod Delete
pub mod Revocation
pub mod Repetition
use service_json_keys.Prelude.{
  ℕ, String, Bool, Option, none, some, List, [], ◌∷◌, ◌++◌, ◌&&◌, leb, ◌==◌, str_eq, select, take,
  length, if◌then◌else◌,
}
use service_json_keys.Fault.{
  Error, ok, err, sentinel, wrap, other, errors_is, no_rows, jwk_select_not_found,
  jwk_delete_not_found, jwk_search_too_many_results, or_raise,
}
use service_json_keys.Encoding.{Bytes}
use service_json_keys.Clock.{Time}
use service_json_keys.Types.{Uuid, Context, Handle, Row}
use service_json_keys.Externals.{Externals}
use service_json_keys.World.{Exec, pure, raise, lift, on_error, log_error, query, ◌>>=◌, ◌>>◌}
use service_json_keys.Dao.Schema.{active_keys, is_deletable, conflicts}
use service_json_keys.Dao.Order.{sort_newest}

-- KeysMaxBatchSize
abbrev pub keys_max_batch_size : ℕ
keys_max_batch_size = 100

pub record JwkInsertRequest : Type 0 where
  pub id : Uuid
  pub private_key : Bytes
  pub public_key : Option Bytes
  pub usage : String
  pub now : Time
  pub expiration : Time

pub record JwkDeleteRequest : Type 0 where
  pub id : Uuid
  pub now : Time
  pub comment : String

-- `tx, err := postgres.GetContext(ctx)`
abbrev pub get_transaction : Context → Exec Handle
get_transaction ctx =
    lift (or_raise (wrap "get transaction" (other "no postgres in context")) ctx.postgres)

-- `Scan(ctx, entity)` into a single struct: the first row, or sql.ErrNoRows.
abbrev pub scan_one : List Row → Exec Row
scan_one [] = raise (sentinel no_rows)
scan_one (r ∷ rs) = pure r

abbrev pub execute_query : Error → Error
execute_query e = wrap "execute query" e

-- pg.jwkSearch.sql
abbrev pub search_sql : String → Exec (List Row)
search_sql usage w = (
  ok (
      take keys_max_batch_size
        (sort_newest (select (λ r. str_eq r.usage usage) (active_keys w.db_time w.rows)))),
  w,
)

-- PgJwkSearch.Exec
unfoldable pub search : Externals → Context → String → Exec (List Row)
unfolding query ◌>>=◌
search x ctx usage = do
  get_transaction ctx
  entities ← on_error execute_query (query x (search_sql usage))
  if leb keys_max_batch_size (length entities)
      then log_error (wrap usage (sentinel jwk_search_too_many_results))
      else pure tt
  pure entities

-- pg.jwkSelect.sql
abbrev pub select_sql : Uuid → Exec Row
select_sql id w = scan_one (select (λ r. r.id == id) (active_keys w.db_time w.rows)) w

abbrev pub select_error : Error → Error
select_error e = if errors_is e no_rows then sentinel jwk_select_not_found else execute_query e

-- PgJwkSelect.Exec
unfoldable pub select_by_id : Externals → Context → Uuid → Exec Row
unfolding query ◌>>=◌
select_by_id x ctx id = do get_transaction ctx; on_error select_error (query x (select_sql id))

-- pg.jwkInsert.sql: RETURNING gives the row as it is stored.
abbrev pub inserted : Externals → JwkInsertRequest → Row
inserted x request = record {
  id = request.id;
  private_key = request.private_key;
  public_key = request.public_key;
  usage = request.usage;
  created_at = x.stamp request.now;
  expires_at = x.stamp request.expiration;
  deleted_at = none;
  deleted_comment = none;
}

abbrev pub insert_sql : Externals → JwkInsertRequest → Exec Row
insert_sql x request w =
    let row = inserted x request in
    if conflicts row w.rows
    then (err (other "constraint violation"), w)
    else (ok row, record w { rows = w.rows ++ row ∷ [] })

-- PgJwkInsert.Exec
unfoldable pub insert : Externals → Context → JwkInsertRequest → Exec Row
unfolding query ◌>>=◌
insert x ctx request = do
  get_transaction ctx
  on_error execute_query (query x (insert_sql x request))

-- pg.jwkDelete.sql
abbrev pub revoke : Externals → JwkDeleteRequest → Row → Row
revoke x request r = record r {
  deleted_at = some (x.stamp request.now);
  deleted_comment = some request.comment;
}

abbrev pub targets : JwkDeleteRequest → Time → Row → Bool
targets request db_time r = r.id == request.id && is_deletable db_time r

abbrev pub revoke_all : Externals → JwkDeleteRequest → Time → List Row → List Row
revoke_all x request db_time [] = []
revoke_all x request db_time (r ∷ rs) =
    (if targets request db_time r then revoke x request r else r) ∷ revoke_all x request db_time rs

abbrev pub returned : Externals → JwkDeleteRequest → Time → List Row → List Row
returned x request db_time [] = []
returned x request db_time (r ∷ rs) =
    let rest = returned x request db_time rs in
    if targets request db_time r then revoke x request r ∷ rest else rest

abbrev pub delete_sql : Externals → JwkDeleteRequest → Exec Row
delete_sql x request w =
    scan_one (returned x request w.db_time w.rows)
      (record w { rows = revoke_all x request w.db_time w.rows })

abbrev pub delete_error : Error → Error
delete_error e = if errors_is e no_rows then sentinel jwk_delete_not_found else execute_query e

-- PgJwkDelete.Exec
unfoldable pub delete : Externals → Context → JwkDeleteRequest → Exec Row
unfolding query ◌>>=◌
delete x ctx request = do
  get_transaction ctx
  on_error delete_error (query x (delete_sql x request))
