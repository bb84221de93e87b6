-- ===== src/Lifecycle/Statements.antt =====
-- The statements of internal/dao are moves of the table.
use service_json_keys.Prelude.{String, ◌≡◌, refl, inl, inr, arith}
use service_json_keys.Types.{Context, Uuid}
use service_json_keys.Externals.{Externals}
use service_json_keys.World.{World, query}
use service_json_keys.Dao
use service_json_keys.Dao.{inserted, JwkInsertRequest, JwkDeleteRequest, revoke_all}
use service_json_keys.Dao.Insert.{insert_cases}
use service_json_keys.Dao.Delete.{delete-rows}
use service_json_keys.Lifecycle.{add, retract, Reach, once}
use service_json_keys.Lifecycle.Follows.{Follows, still}

module _ (x : Externals) (ctx : Context) where
  pub search-Follows : (usage : String) → Follows x (Dao.search x ctx usage)
  unfolding Dao.search query
  search-Follows usage = record { moves = λ w. still (ground arith) (ground arith) }

  pub select_by_id-Follows : (id : Uuid) → Follows x (Dao.select_by_id x ctx id)
  unfolding Dao.select_by_id query
  select_by_id-Follows id = record { moves = λ w. still (ground arith) (ground arith) }

  insert-db_time :
      (request : JwkInsertRequest) (w : World) → (Dao.insert x ctx request w).1.db_time ≡ w.db_time
  unfolding Dao.insert query
  insert-db_time request w = ground arith

  pub insert-Reach :
      (request : JwkInsertRequest) (w : World) → Reach x w (Dao.insert x ctx request w).1
  insert-Reach request w =
      let stopped = insert-db_time request w in
      elim (insert_cases x ctx request w) [
        | inl (_, added, fresh, filled) ↦
            once (add (inserted x request) added fresh filled refl (omega arith))
        | inr (_, kept) ↦ still kept stopped
      ]

  pub insert-Follows : (request : JwkInsertRequest) → Follows x (Dao.insert x ctx request)
  insert-Follows request = record { moves = insert-Reach request }

  delete-db_time :
      (request : JwkDeleteRequest) (w : World) → (Dao.delete x ctx request w).1.db_time ≡ w.db_time
  unfolding Dao.delete query
  delete-db_time request w = ground arith

  pub delete-Reach :
      (request : JwkDeleteRequest) (w : World) → Reach x w (Dao.delete x ctx request w).1
  delete-Reach request w =
      let stopped = delete-db_time request w in
      elim (delete-rows x ctx request w) [
        | inl kept ↦ still kept stopped
        | inr changed ↦ once (retract request changed (omega arith))
      ]

  pub delete-Follows : (request : JwkDeleteRequest) → Follows x (Dao.delete x ctx request)
  delete-Follows request = record { moves = delete-Reach request }
