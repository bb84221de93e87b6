-- ===== src/Client.antt =====
-- pkg/go: the verifier of claims (claims.go), and the adapter that gives it the keys of the service
-- (jwkExportGrpc.go).
pub mod Keys
pub mod Dialled
use service_json_keys.Prelude.{String, Bool, false, Option, none, some, List, [], ◌∷◌, map}
use service_json_keys.Fault.{Result, wrap, map_error}
use service_json_keys.Fault
use service_json_keys.Types.{Context, Jwk}
use service_json_keys.Config.{KeysConfig, jwk_preset_default}
use service_json_keys.World.{World, Exec, pure, ◌>>=◌}
use service_json_keys.Handlers.Grpc.{ProtoJwk}
use service_json_keys.Core.Claims.{Jwt, verify}
use service_json_keys.Core.Sources.{Plugin, Plugins, new_jwk_public_source, new_jwk_recipients}

-- BaseClient, by the call that the adapter makes.
pub record BaseClient : Type 0 where
  pub jwk_list : String → Exec (List ProtoJwk)

abbrev pub of_proto : ProtoJwk → Jwk
of_proto item = record {
  kty = item.kty;
  use_ = item.use_;
  key_ops = item.key_ops;
  alg = item.alg;
  kid = item.kid;
  payload = item.payload;
}

unfoldable pub of_protos : List ProtoJwk → List (Option Jwk)
of_protos [] = []
of_protos (item ∷ items) = some (of_proto item) ∷ of_protos items

-- client, over a connection of the grpc library.
pub record Client (Conn : Type 0) : Type 0 where
  pub base : BaseClient
  -- Keys
  pub keys : KeysConfig
  pub conn : Conn

-- What the grpc library and the generated code are called for: grpc.NewClient, the service clients
-- over a connection, and the closing of a connection, which may fail.
pub record GrpcClient (Conn : Type 0) : Type 0 where
  pub new_client : String → Result Conn
  pub services : Conn → BaseClient
  pub close : Conn → Exec (Unit {0})

module _ {Conn : Type 0} (grpc : GrpcClient Conn) where
  -- NewClient
  unfoldable pub new_client : String → Result (Client Conn)
  new_client addr = Fault.◌>>=◌ (map_error (wrap "new grpc client") (grpc.new_client addr)) λ conn.
      Result.ok (record { base = grpc.services conn; keys = jwk_preset_default; conn = conn })

  -- client.Close, which drops the error.
  unfoldable pub close : Client Conn → World → Unit {0} × World
  close client w = (tt, (grpc.close client.conn w).1)

-- jwkExportGrpc.SearchKeys
unfoldable pub search_keys : BaseClient → String → Exec (List (Option Jwk))
search_keys client usage = do res ← client.jwk_list usage; pure (of_protos res)

-- NewClaimsVerifier, up to the recipients that the service of the verifier is built with.
unfoldable pub new_claims_verifier : KeysConfig → Result Plugins
new_claims_verifier keys =
    Fault.◌>>=◌
      (map_error (wrap "(NewClaimsVerifier) new public sources") (new_jwk_public_source keys))
      λ sources.
        map_error (wrap "(NewClaimsVerifier) new recipients") (new_jwk_recipients sources keys)

-- VerifyClaimsOptions
pub record VerifyClaimsOptions : Type 0 where
  pub ignore_expired : Bool

-- VerifyClaimsRequest
pub record VerifyClaimsRequest (Token : Type 0) : Type 0 where
  pub usage : String
  pub access_token : Token
  pub options : Option VerifyClaimsOptions

-- lo.FromPtr of the options; the zero value ignores nothing.
abbrev pub ignores_expired : Option VerifyClaimsOptions → Bool
ignores_expired none = false
ignores_expired (some options) = options.ignore_expired

-- claimsVerifier.VerifyClaims
unfoldable pub verify_claims :
    {Value Claims Token Producer : Type 0}
    → Jwt Value Claims Token Producer Plugin
    → Plugins
    → KeysConfig
    → Context
    → VerifyClaimsRequest Token
    → Exec Value
verify_claims jwt recipients keys ctx req = verify jwt recipients keys ctx (record {
  token = req.access_token;
  usage = req.usage;
  ignore_expired = ignores_expired req.options;
})
