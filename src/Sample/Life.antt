-- ===== src/Sample/Life.antt =====
-- The life of the table at concrete inputs.
use service_json_keys.Prelude.{◌+◌, ◌*◌, ◌≤◌, ◌≡◌, ◌≢◌, refl, [], ◌∷◌, All}
use service_json_keys.Fault.{ok}
use service_json_keys.Clock.{second}
use service_json_keys.Types.{Row}
use service_json_keys.World.{World, ◌>>=◌, query}
use service_json_keys.Dao.{search, select_by_id, insert, delete, JwkInsertRequest, inserted}
use service_json_keys.Dao.Order.{place, sort_newest}
use service_json_keys.Dao.Schema.{is_active, active_keys, has_id, conflicts}
use service_json_keys.Dao.Insert.{IsTable}
use service_json_keys.Core.Gen.{gen}
use service_json_keys.Core.RotateAll.{rotate_usages}
use service_json_keys.Handlers.Grpc
use service_json_keys.Handlers.Rest
use service_json_keys.Lifecycle.{Reach}
use service_json_keys.Lifecycle.History.{Remembers, Reach-Remembers}
use service_json_keys.Lifecycle.Services.{operations-Reach}
use service_json_keys.Lifecycle.Retirement.{IsRetired, IsRetired-forever}
use service_json_keys.Sample.{sample, ctx, one_key, one_usage, start}
use service_json_keys.Sample.Storage.{old-IsTable, new_key, compromised}
use service_json_keys.Sample.Transport.{httpf}

operations-Reach_example :
    Reach sample one_key (insert sample ctx new_key one_key).1
    × Reach sample one_key (delete sample ctx compromised one_key).1
    × Reach sample one_key (gen sample ctx one_usage "auth" one_key).1
    × Reach sample one_key (rotate_usages sample one_usage one_usage 0 ctx one_key).1
    × Reach sample one_key (Grpc.jwk_get sample ctx "a" one_key).1
    × Reach sample one_key (Grpc.jwk_list sample ctx "auth" one_key).1
    × Reach sample one_key (Rest.jwk_get httpf sample ctx "a" one_key).1
    × Reach sample one_key (Rest.jwk_list httpf sample ctx "auth" one_key).1
operations-Reach_example =
    operations-Reach sample ctx httpf one_usage "auth" "a" new_key compromised one_key

revoked : Reach sample one_key (delete sample ctx compromised one_key).1
revoked = (operations-Reach sample ctx httpf one_usage "auth" "a" new_key compromised one_key).1

Reach-Remembers_example :
    IsTable (delete sample ctx compromised one_key).1.rows
    × Remembers one_key.rows (delete sample ctx compromised one_key).1.rows
    × (one_key.db_time ≤ (delete sample ctx compromised one_key).1.db_time)
Reach-Remembers_example = Reach-Remembers revoked old-IsTable

-- Two days on, the only key has expired, and another one is inserted.
abbrev expired : World
expired = record one_key { db_time = start + 172_800 * second }

abbrev next_key : JwkInsertRequest
next_key = record new_key { now = expired.db_time; expiration = expired.db_time + 60 * second }

abbrev renewed : World
renewed = (insert sample ctx next_key expired).1

renewal : Reach sample expired renewed
renewal = (operations-Reach sample ctx httpf one_usage "auth" "a" next_key compromised expired).0

expired_key : IsRetired 3 expired
unfolding has_id is_active
expired_key = (refl, ((λ same. refl), tt))

renewed_runs :
    search sample ctx "auth" renewed
    ≡ (ok (inserted sample next_key ∷ []), record renewed { step = 2 })
unfolding search insert ◌>>=◌ query conflicts has_id active_keys is_active place sort_newest
renewed_runs = refl

IsRetired-forever_example :
    IsRetired 3 renewed
    × ((r : Row) → (select_by_id sample ctx 3 renewed).0 ≢ ok r)
    × All (λ r. r.id ≢ 3) (inserted sample next_key ∷ [])
IsRetired-forever_example =
    IsRetired-forever sample ctx 3 "auth" (inserted sample next_key ∷ []) expired renewed
      (record renewed { step = 2 }) renewal expired_key renewed_runs
