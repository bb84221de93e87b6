-- ===== src/Sample/Servers.antt =====
-- The gRPC server and the rotation job at concrete inputs.
use service_json_keys.Prelude.{ℕ, ◌≡◌, ◌⊎◌, String, refl, true, none, some, [], ◌∷◌, Listed}
use service_json_keys.Fault.{Result, ok}
use service_json_keys.Encoding.Hex
use service_json_keys.Encoding.Base64
use service_json_keys.Clock.{sub}
use service_json_keys.Types.{Context, Row, transaction}
use service_json_keys.Config.{auth, jwk_preset_default, lookup}
use service_json_keys.MasterKey.{new_master_key_context, encrypt_master_key, decrypt_master_key}
use service_json_keys.World.{World, ◌>>=◌, query}
use service_json_keys.Dao
use service_json_keys.Dao.Order.{place, sort_newest}
use service_json_keys.Dao.Schema.{is_active, active_keys, has_id, conflicts}
use service_json_keys.Core.Claims.{Jwt}
use service_json_keys.Core.Extract.{extract}
use service_json_keys.Core.Presets.{jwk_generators, jwk_generator_ed25519}
use service_json_keys.Core.Gen.{gen, generate, last_created}
use service_json_keys.Core.Sources.{
  Plugin, new_jwk_private_source, build, family, new_jwk_producers, wire_eddsa, wire_es, wire_rsa,
}
use service_json_keys.Handlers.Claims.{ProtoClaimsSignRequest}
use service_json_keys.Cmd.{boot}
use service_json_keys.Cmd.Keys.{job_key_served}
use service_json_keys.Cmd.RotateKeys
use service_json_keys.Cmd.Grpc
use service_json_keys.Cmd.Grpc.{Server, Call, serve, dispatch, ctx_interceptor}
use service_json_keys.Sample.{
  sample, sample-IsSecretbox, sample-IsJson, sample-IsRandom, ctx, key_of, one_key,
}
use service_json_keys.Handlers.Health.{
  rest_health_status_up, rest_health_status_down, dependency_status_up, dependency_status_down,
}
use service_json_keys.Cmd.Rest
use service_json_keys.Cmd.Rest.{Chi, Request, Endpoint}
use service_json_keys.Cmd.Healthcheck.{health_reported}
use service_json_keys.Sample.Transport.{httpf}
use service_json_keys.Sample.Commands.{
  zero_starts, golib, golib-IsGolib, zero_settings, zero_context,
}

-- A library whose claims and tokens are the values.
abbrev pub plain : Jwt ℕ ℕ ℕ Plugin ℕ
plain = record {
  new_basic_claims = λ value config n. ok value;
  issue = λ sender producers claims w. (ok claims, w);
  consume = λ receiver recipients checks token w. (ok token, w);
}

abbrev pub read : ℕ → Result ℕ
read payload = ok payload

abbrev pub server_of : Result Server → Server
server_of (ok server) = server
server_of _ = record { ctx = ctx; producers = [] }

abbrev pub server : Server
server = server_of (Grpc.start golib zero_settings)

pub starts : Grpc.start golib zero_settings ≡ ok server
unfolding Grpc.start Grpc.wire boot new_master_key_context Hex.decode new_jwk_private_source build
    family new_jwk_producers wire_eddsa wire_es wire_rsa
starts = refl

pub server_ctx : server.ctx ≡ zero_context
unfolding Grpc.start Grpc.wire boot new_master_key_context Hex.decode new_jwk_private_source build
    family new_jwk_producers wire_eddsa wire_es wire_rsa
server_ctx = refl

abbrev request : ProtoClaimsSignRequest ℕ
request = record { payload = 5; usage = "auth" }

-- A context as it arrives, with nothing of the server's.
abbrev pub arrived : Context
arrived = record { master_key = none; postgres = none }

job_starts : RotateKeys.start golib zero_settings ≡ ok zero_context
unfolding RotateKeys.start boot new_master_key_context Hex.decode
job_starts = refl

abbrev within : Context
within = record zero_context { postgres = some transaction }

abbrev rotated : World
rotated = (gen sample within jwk_preset_default "auth" one_key).1

job_runs :
    gen sample within jwk_preset_default "auth" one_key ≡ (ok (some (key_of (1 ∷ 2 ∷ []))), rotated)
unfolding gen generate last_created ◌>>=◌ lookup query Dao.search Dao.insert active_keys is_active
    place sort_newest jwk_generators jwk_generator_ed25519 encrypt_master_key decrypt_master_key
    Base64.encode Base64.decode conflicts has_id extract sub
job_runs = refl

job_key_served_example :
    (row : Row) × Listed row rotated.rows
    × (row.usage ≡ "auth")
    × (extract sample (ctx_interceptor golib server.ctx arrived) row true
        ≡ ok (some (key_of (1 ∷ 2 ∷ []))))
unfolding lookup
job_key_served_example =
    job_key_served golib sample zero_settings zero_settings zero_context arrived server "auth" auth
      one_key rotated (some (key_of (1 ∷ 2 ∷ []))) golib-IsGolib sample-IsSecretbox sample-IsJson
      sample-IsRandom refl job_starts starts refl job_runs

-- A router that leads every request to the health check.
abbrev to_health : Chi
to_health = record { route = λ routes method path. some Endpoint.health }

abbrev checkup : Request
checkup = record { method = "GET"; path = "/v2/healthcheck"; query = λ name. "" }

health_reported_example :
    ((sample.ping_fault one_key.step ≡ none)
      × (serve golib sample read plain server arrived Call.status one_key
          ≡ (Grpc.assessed (record { status = dependency_status_up }), record one_key { step = 1 }))
      × (Rest.serve httpf sample zero_context to_health checkup one_key ≡ (
        Rest.assessed (record { status = rest_health_status_up }),
        record one_key { step = 1 },
      )))
    ⊎ ((message : String) × (sample.ping_fault one_key.step ≡ some message)
        × (serve golib sample read plain server arrived Call.status one_key ≡ (
          Grpc.assessed (record { status = dependency_status_down }),
          record one_key { step = 1 },
        ))
        × (Rest.serve httpf sample zero_context to_health checkup one_key ≡ (
          Rest.assessed (record { status = rest_health_status_down }),
          record one_key { step = 1 },
        )))
health_reported_example =
    health_reported golib httpf sample read plain zero_settings zero_settings server zero_context
      arrived to_health checkup one_key golib-IsGolib starts zero_starts refl
