-- ===== src/Handlers/Claims.antt =====
-- internal/handlers/grpc.claimsSign.go
use service_json_keys.Prelude.{String, List, if◌then◌else◌}
use service_json_keys.Fault.{Result, ok, err, panic, errors_is, config_not_found, reserved_claim}
use service_json_keys.Types.{Context}
use service_json_keys.Config.{KeysConfig}
use service_json_keys.World.{World}
use service_json_keys.Core.Claims.{Jwt, sign}
use service_json_keys.Handlers.Grpc.{
  Reply, reply, status, panicked, invalid_argument, unavailable, internal,
}

abbrev pub sign_reply : {Token : Type 0} → Result Token → Reply Token
sign_reply (ok token) = reply token
sign_reply (err e) =
    if errors_is e config_not_found
    then status unavailable "unknown usage"
    else if errors_is e reserved_claim
    then status invalid_argument
        "payload may not set a registered claim (iss, sub, aud, exp, nbf, iat, jti)"
    else status internal "internal error"
sign_reply panic = panicked

-- jsonkeysv2.ClaimsSignRequest
pub record ProtoClaimsSignRequest (Payload : Type 0) : Type 0 where
  pub payload : Payload
  pub usage : String

module _ {Payload Value Claims Token Producer Recipient : Type 0}
    (unmarshal : Payload → Result Value) (jwt : Jwt Value Claims Token Producer Recipient)
    (producers : List (String × List Producer)) (keys_config : KeysConfig) (ctx : Context) where
  -- GrpcClaimsSign.ClaimsSign; `unmarshal` is grpcf.UnmarshalJSONFromAny.
  unfoldable pub claims_sign : ProtoClaimsSignRequest Payload → World → Reply Token × World
  claims_sign request w = elim (unmarshal request.payload) [
    | err e ↦ (status invalid_argument "invalid payload", w)
    | panic ↦ (panicked, w)
    | ok claims ↦
        let (r, w') =
          sign jwt producers keys_config ctx (record { claims = claims; usage = request.usage })
            w in
        (sign_reply r, w')
  ]
