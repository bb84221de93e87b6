-- ===== src/Sample/Delivery.antt =====
-- A run of the job, the server and a client of it, at concrete inputs.
use service_json_keys.Prelude.{
  ℕ, ◌+◌, ◌*◌, ◌≡◌, ◌≢◌, refl, ap, some, true, List, [], arith, map, all, All,
}
use service_json_keys.Fault.{ok}
use service_json_keys.Clock.{second, sub, add}
use service_json_keys.Encoding.Base64
use service_json_keys.Encoding.Hex
use service_json_keys.Externals.{KeyPair}
use service_json_keys.Config.{auth, ed_dsa, lookup}
use service_json_keys.World.{World, ◌>>=◌, query}
use service_json_keys.Dao
use service_json_keys.Dao.Order.{place, sort_newest}
use service_json_keys.Dao.Schema.{is_active, active_keys, has_id, conflicts, is_null}
use service_json_keys.MasterKey.{encrypt_master_key, decrypt_master_key, new_master_key_context}
use service_json_keys.Core.Presets.{jwk_generators, jwk_generator_ed25519}
use service_json_keys.Core.Presets.Laws.{IsDrawn}
use service_json_keys.Core.Extract.{extract}
use service_json_keys.Core.Gen.{gen, generate, last_created}
use service_json_keys.Core.RotateAll.{rotate_all, rotate_usages}
use service_json_keys.Core.Search
use service_json_keys.Client.{BaseClient, search_keys}
use service_json_keys.Client.Dialled.{LeadsTo}
use service_json_keys.Cmd.{boot, codes}
use service_json_keys.Cmd.RotateKeys
use service_json_keys.Cmd.RotateKeys.{run, done}
use service_json_keys.Cmd.Grpc.{Call, serve}
use service_json_keys.Cmd.Delivery.{delivered}
use service_json_keys.Deployment.{begun, passed}
use service_json_keys.Sample.{empty_world, transactor, transactor_sample, start}
use service_json_keys.Sample.Commands.{golib, golib-IsGolib, zero_settings, repeated}
use service_json_keys.Sample.Clients.{items_of}
use service_json_keys.Sample.Servers.{server, starts, plain, read, arrived}
use service_json_keys.Sample.Deployment.{numbered-IsClock, first_alive}
use service_json_keys.Sample.Numbered.{
  numbered, numbered-IsSecretbox, numbered-IsJson, numbered-IsRandom,
}

abbrev ended : World
ended = (run golib numbered transactor zero_settings empty_world).1

job_runs :
    ((run golib numbered transactor zero_settings empty_world).0 ≡ done 2)
    × (ended.step ≡ 12)
    × (ended.db_time ≡ start)
    × (all (λ r. is_null r.deleted_at) ended.rows ≡ true)
unfolding run RotateKeys.start boot new_master_key_context Hex.decode rotate_all rotate_usages gen
    generate ◌>>=◌ Dao.search Dao.insert query active_keys is_active place sort_newest last_created
    lookup jwk_generators jwk_generator_ed25519 encrypt_master_key decrypt_master_key Base64.encode
    Base64.decode conflicts has_id extract sub add
job_runs = (refl, refl, refl, refl)

-- An hour after the run.
abbrev hour_later : World
hour_later = record ended { db_time = start + 3600 * second }

abbrev client : BaseClient
client = record {
  jwk_list = λ usage w.
      let (answer, w') = serve golib numbered read plain server arrived (Call.list usage) w in
      (items_of answer, w');
}

leads : LeadsTo golib numbered read plain server client
leads = record {
  arrived = arrived;
  replied = λ usage w items h.
      ap (λ a. (items_of a, (serve golib numbered read plain server arrived (Call.list usage) w).1))
        h;
}

key_read : Hex.decode (codes zero_settings.app_master_key) ≡ ok (repeated 32 0)
unfolding Hex.decode
key_read = refl

delivered_example :
    (pairs : List KeyPair) × (pairs ≢ [])
    × All (λ p. (n : ℕ) × IsDrawn numbered ed_dsa n p) pairs
    × ((Search.search_keys numbered server.ctx "auth" hour_later).0
        ≡ ok (map some (map (λ p. p.private) pairs)))
    × ((search_keys client "auth" hour_later).0 ≡ ok (map some (map (λ p. p.public) pairs)))
unfolding lookup
delivered_example =
    delivered golib numbered read plain server transactor zero_settings zero_settings
      (repeated 32 0) (60 * second) 0 golib-IsGolib numbered-IsSecretbox numbered-IsJson
      numbered-IsRandom numbered-IsClock transactor_sample key_read key_read starts empty_world
      empty_world hour_later refl begun job_runs.0 (omega (arith, job_runs.2))
      (λ n late soon. omega (arith, job_runs.1)) (omega arith)
      (passed begun refl (omega (arith, job_runs.2))) (omega arith) client "auth" auth leads refl
      (λ r here same. first_alive ended.rows job_runs.3 r here) refl
