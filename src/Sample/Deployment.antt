-- ===== src/Sample/Deployment.antt =====
-- The number of active keys at concrete inputs: two keys are made in an empty table, and listed.
use service_json_keys.Prelude.{
  [], ◌∷◌, ◌+◌, ◌-◌, ◌*◌, ◌≤◌, ◌<◌, ◌≡◌, refl, List, arith, some, none, length, all, true, ◌≢◌, inl,
  inr, Listed, take,
}
use service_json_keys.Fault.{ok}
use service_json_keys.Clock.{second, sub, add}
use service_json_keys.Types.{Context, Row, pool}
use service_json_keys.Encoding.Base64
use service_json_keys.Externals.{Externals}
use service_json_keys.Config.{lookup, auth, jwk_preset_default}
use service_json_keys.World.{World, ◌>>=◌, query}
use service_json_keys.Dao
use service_json_keys.Dao.Order.{place, sort_newest}
use service_json_keys.Dao.Schema.{is_active, active_keys, has_id, conflicts, is_null}
use service_json_keys.Dao.Search.{IsServed, served}
use service_json_keys.MasterKey.{encrypt_master_key, decrypt_master_key}
use service_json_keys.Core.Presets.{jwk_generators, jwk_generator_ed25519}
use service_json_keys.Core.Extract.{extract}
use service_json_keys.Core.Gen.{gen, generate, last_created}
use service_json_keys.Core.RotateAll.{rotate_all, rotate_usages}
use service_json_keys.Deployment.{IsClock, half_second, History, begun, rotated, passed}
use service_json_keys.Deployment.Limits.{active_bound, default_search_full}
use service_json_keys.Deployment.Availability.{key_available}
use service_json_keys.Sample.{
  ctx, empty_world, transactor, transactor_sample, start, master_key_bytes,
}
use service_json_keys.Sample.Numbered.{
  numbered, numbered-IsSecretbox, numbered-IsJson, numbered-IsRandom,
}

pub numbered-IsClock : IsClock numbered
numbered-IsClock = record {
  onward = λ m n h. omega arith;
  not_above = λ t. omega arith;
  not_below = λ t. omega arith;
}

abbrev pub first : World
first = (rotate_all numbered jwk_preset_default transactor ctx empty_world).1

first_runs :
    ((rotate_all numbered jwk_preset_default transactor ctx empty_world).0
      ≡ ok (record { processed = 2 }))
    × (first.step ≡ 12)
    × (first.db_time ≡ start)
    × (length first.rows ≡ 2)
    × (all (λ r. is_null r.deleted_at) first.rows ≡ true)
unfolding rotate_all rotate_usages gen generate ◌>>=◌ Dao.search Dao.insert query active_keys
    is_active place sort_newest last_created lookup jwk_generators jwk_generator_ed25519
    encrypt_master_key decrypt_master_key Base64.encode Base64.decode conflicts has_id extract sub
    add
first_runs = (refl, refl, refl, refl, refl)

-- An hour after the rotation.
abbrev pub settled : World
settled = record first { db_time = start + 3600 * second }

pub history : History numbered jwk_preset_default master_key_bytes (60 * second) empty_world settled
history =
    passed
      (rotated transactor ctx begun refl transactor_sample refl (omega (arith, first_runs.2))
        (λ n late soon. omega (arith, first_runs.1)))
      refl (omega (arith, first_runs.2))

active_bound_example :
    length (served "auth" settled) * (24 * 3600 * second - half_second)
    < 168 * 3600 * second + 24 * 3600 * second + 60 * second + second
unfolding lookup
active_bound_example =
    active_bound numbered jwk_preset_default master_key_bytes (60 * second) "auth" auth
      (24 * 3600 * second) (168 * 3600 * second) empty_world settled numbered-IsSecretbox
      numbered-IsJson numbered-IsRandom numbered-IsClock (refl, (refl, tt)) refl refl refl
      (omega arith) refl history

abbrev listed : World → List Row
listed w = take Dao.keys_max_batch_size (sort_newest (served "auth" w))

search_runs :
    (x : Externals) (c : Context) (w : World)
    → c.postgres ≡ some pool
    → x.database_fault w.step ≡ none
    → Dao.search x c "auth" w ≡ (ok (listed w), (Dao.search x c "auth" w).1)
unfolding Dao.search query
search_runs x c w connected up = ground arith

default_search_full_example :
    (length (listed settled) ≤ 8)
    × ((Dao.search numbered ctx "auth" settled).1.log ≡ settled.log)
    × ((r : Row) → IsServed "auth" settled r → Listed r (listed settled))
unfolding lookup
default_search_full_example =
    default_search_full numbered empty_world settled numbered-IsSecretbox numbered-IsJson
      numbered-IsRandom numbered-IsClock master_key_bytes (60 * second) (omega arith) refl history
      ctx "auth" auth (Dao.search numbered ctx "auth" settled).1 (listed settled) refl
      (search_runs numbered ctx settled refl refl)

pub first_alive :
    (rows : List Row)
    → all (λ r. is_null r.deleted_at) rows ≡ true
    → (r : Row) → Listed r rows
    → r.deleted_at ≡ none
first_alive [] h r here = elim here [ ]
first_alive (q ∷ rows) h r (inl e) = rw (← e) (ground arith)
first_alive (q ∷ rows) h r (inr later) = first_alive rows (ground arith) r later

key_available_example : listed settled ≢ []
unfolding lookup
key_available_example =
    key_available numbered jwk_preset_default master_key_bytes (60 * second) "auth" auth
      (24 * 3600 * second) (168 * 3600 * second) numbered-IsSecretbox numbered-IsJson
      numbered-IsRandom numbered-IsClock (refl, (refl, tt)) (inl refl) refl refl (omega arith)
      (omega arith) transactor ctx ctx (record { processed = 2 }) 0 empty_world empty_world first
      settled (Dao.search numbered ctx "auth" settled).1 (listed settled) refl begun refl
      transactor_sample (λ i. (first_runs.0 i, first)) (omega (arith, first_runs.2))
      (λ n late soon. omega (arith, first_runs.1)) (omega arith)
      (passed begun refl (omega (arith, first_runs.2)))
      (λ r here same. first_alive first.rows first_runs.4 r here) (omega arith)
      (search_runs numbered ctx settled refl refl)
