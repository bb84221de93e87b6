-- ===== src/Client/Keys.antt =====
-- The keys that a client of the service verifies with.
use service_json_keys.Prelude.{String, ◌≡◌, refl, ap, ◌∙◌, false, some, List, [], ◌∷◌, map}
use service_json_keys.Fault.{ok}
use service_json_keys.Types.{Context, Jwk}
use service_json_keys.Externals.{Externals}
use service_json_keys.World.{World, continue, ◌>>=◌}
use service_json_keys.Config.{KeysConfig}
use service_json_keys.Core.Search
use service_json_keys.Core.Sources.{Plugins, verifier, public_source}
use service_json_keys.Core.Sources.Building.{IsMap, IsSupported}
use service_json_keys.Core.Sources.Equipped.{IsEquipped, plugins_sound}
use service_json_keys.Handlers.Grpc
use service_json_keys.Handlers.Grpc.{ProtoJwk, reply, to_proto, to_protos, list_reply}
use service_json_keys.Client.{BaseClient, of_protos, search_keys, new_claims_verifier}

-- The connection: what the handler answers with is what the client's call gives.
pub record IsConnected (client : BaseClient) (x : Externals) (ctx : Context) : Type 0 where
  pub replied :
      (usage : String) (w : World) (items : List ProtoJwk)
      → (Grpc.jwk_list x ctx usage w).0 ≡ reply items
      → client.jwk_list usage w ≡ (ok items, (Grpc.jwk_list x ctx usage w).1)

to_protos-map : (keys : List Jwk) → to_protos (map some keys) ≡ reply (map to_proto keys)
unfolding to_protos
to_protos-map [] = refl
to_protos-map (key ∷ keys) = rw (to_protos, to_protos-map keys)

of_protos-map : (keys : List Jwk) → of_protos (map to_proto keys) ≡ map some keys
unfolding of_protos
of_protos-map [] = refl
of_protos-map (key ∷ keys) = ap (λ rest. some key ∷ rest) (of_protos-map keys)

-- The keys that a connected client is given for a usage are the public keys that the service's
-- search gives, in the same order and with all their fields, when none of them is nil.
pub search_keys-connected :
    (client : BaseClient) (x : Externals) (ctx : Context) (usage : String) (w v : World)
    (keys : List Jwk)
    → IsConnected client x ctx
    → Search.search x ctx usage false w ≡ (ok (map some keys), v)
    → search_keys client usage w ≡ (ok (map some keys), v)
unfolding search_keys Grpc.jwk_list ◌>>=◌
search_keys-connected client x ctx usage w v keys connected found =
    let answered : Grpc.jwk_list x ctx usage w ≡ (reply (map to_proto keys), v) =
      ap (λ p. (list_reply p.0, p.1)) found ∙ ap (λ r. (r, v)) (to_protos-map keys) in
    let called : client.jwk_list usage w ≡ (ok (map to_proto keys), v) =
      connected.replied usage w (map to_proto keys) (ap (λ p. p.0) answered)
      ∙ ap (λ p. (ok (map to_proto keys), p.1)) answered in
    ap (λ p. continue p.0 (λ res u. (ok (of_protos res), u)) p.1) called
    ∙ ap (λ found. (ok found, v)) (of_protos-map keys)

-- A verifier of claims can be built for every configuration in which each algorithm is supported
-- and each usage is configured once; every configured usage has then a plugin, and every plugin of
-- a usage is the verifier of its configured algorithm, over a source that fetches the keys of this
-- usage.
pub new_claims_verifier_sound :
    (keys : KeysConfig)
    → IsMap keys
    → IsSupported keys
    → (recipients : Plugins) × (new_claims_verifier keys ≡ ok recipients)
      × IsEquipped verifier public_source keys recipients
unfolding new_claims_verifier
new_claims_verifier_sound keys map supported =
    let (sources, recipients, built, made, wired) = (plugins_sound keys map supported).1 in
    (recipients, rw (built, made), wired)
