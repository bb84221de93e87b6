-- ===== src/Sample/Halves.antt =====
-- The halves of the keys that a rotation made, at concrete inputs.
use service_json_keys.Prelude.{◌*◌, ℕ, ◌≡◌, refl, ap, some, List, length, map, All}
use Prim.Native.Nat.{min}
use service_json_keys.Fault.{ok}
use service_json_keys.Externals.{KeyPair}
use service_json_keys.Config.{auth, ed_dsa, lookup, jwk_preset_default}
use service_json_keys.Dao
use service_json_keys.Dao.Search.{served}
use service_json_keys.Core.Presets.Laws.{IsDrawn}
use service_json_keys.Core.Search
use service_json_keys.Handlers.Grpc
use service_json_keys.Client.{BaseClient, search_keys}
use service_json_keys.Client.Keys.{IsConnected}
use service_json_keys.Clock.{second}
use service_json_keys.Types.{pool}
use service_json_keys.Deployment.Fetch.{halves_served}
use service_json_keys.Sample.{ctx, empty_world, master_key_bytes}
use service_json_keys.Sample.Numbered.{
  numbered, numbered-IsSecretbox, numbered-IsJson, numbered-IsRandom,
}
use service_json_keys.Sample.Clients.{result_of}
use service_json_keys.Sample.Deployment.{settled, history}

abbrev client : BaseClient
client = record {
  jwk_list =
      λ usage w. let (answer, w') = Grpc.jwk_list numbered ctx usage w in (result_of answer, w');
}

client-IsConnected : IsConnected client numbered ctx
client-IsConnected = record {
  replied = λ usage w items h. ap (λ a. (result_of a, (Grpc.jwk_list numbered ctx usage w).1)) h;
}

halves_served_example :
    (pairs : List KeyPair) × All (λ p. (n : ℕ) × IsDrawn numbered ed_dsa n p) pairs
    × (length pairs ≡ min Dao.keys_max_batch_size (length (served "auth" settled)))
    × ((Search.search_keys numbered ctx "auth" settled).0
        ≡ ok (map some (map (λ p. p.private) pairs)))
    × ((search_keys client "auth" settled).0 ≡ ok (map some (map (λ p. p.public) pairs)))
unfolding lookup
halves_served_example =
    halves_served numbered jwk_preset_default master_key_bytes (60 * second) "auth" auth empty_world
      settled numbered-IsSecretbox numbered-IsJson numbered-IsRandom ctx ctx pool pool client
      (refl, (refl, tt)) refl refl history refl refl refl refl client-IsConnected
