-- ===== src/Cmd/Grpc.antt =====
-- cmd/grpc/main.go: the server that holds the master key, from its settings to the reply to a
-- request. The modelled part of a request is the context and the message that reach the handler.
pub mod Serving
pub mod Signing
use service_json_keys.Prelude.{String, List}
use service_json_keys.Fault.{Result, ok, ◌>>=◌}
use service_json_keys.Types.{Context}
use service_json_keys.Externals.{Externals}
use service_json_keys.Config.{jwk_preset_default}
use service_json_keys.Config.Env.{Settings}
use service_json_keys.Config.App.{app_preset_default}
use service_json_keys.MasterKey.{transfer_master_key_context}
use service_json_keys.World.{World}
use service_json_keys.Core.Claims.{Jwt}
use service_json_keys.Core.Sources.{Plugin, Plugins, new_jwk_private_source, new_jwk_producers}
use service_json_keys.Handlers.Health.{DependencyHealth, grpc_status}
use service_json_keys.Handlers.Grpc
use service_json_keys.Handlers.Grpc.{Reply, ProtoJwk}
use service_json_keys.Handlers.Claims.{ProtoClaimsSignRequest, claims_sign}
use service_json_keys.Cmd.{Golib, boot, must}

-- What `main` holds when it starts to serve.
pub record Server : Type 0 where
  pub ctx : Context
  pub producers : Plugins

-- The signing chain.
unfoldable pub wire : Context → Result Server
wire ctx = do
  source ← must (new_jwk_private_source jwk_preset_default)
  producers ← must (new_jwk_producers source jwk_preset_default)
  ok (record { ctx = ctx; producers = producers })

-- `main`, up to the registration of the services.
unfoldable pub start : Golib → Settings → Result Server
unfolding app_preset_default
start g env = do
  let cfg = app_preset_default env
  ctx ← boot g cfg.app cfg.otel cfg.postgres
  wire ctx

-- `ctxInterceptor`, which every request passes.
unfoldable pub ctx_interceptor : Golib → Context → Context → Context
ctx_interceptor g ctx rp_ctx = transfer_master_key_context ctx (g.transfer_context ctx rp_ctx)

-- The services that are registered, by the message that each takes.
pub data Call (Payload : Type 0) : Type 0 where
  status : Call Payload
  sign : ProtoClaimsSignRequest Payload → Call Payload
  get : String → Call Payload
  list : String → Call Payload

pub data Answer (Token : Type 0) : Type 0 where
  assessed : DependencyHealth → Answer Token
  signed : Reply Token → Answer Token
  found : Reply ProtoJwk → Answer Token
  listed : Reply (List ProtoJwk) → Answer Token

module _ {Payload Value Claims Token Recipient : Type 0} (x : Externals)
    (unmarshal : Payload → Result Value) (jwt : Jwt Value Claims Token Plugin Recipient)
    (producers : Plugins) where
  -- The handlers, at the context of a request.
  unfoldable pub dispatch : Context → Call Payload → World → Answer Token × World
  dispatch ctx status w = let (health, w') = grpc_status x ctx w in (assessed health, w')
  dispatch ctx (sign request) w =
      let (answer, w') = claims_sign unmarshal jwt producers jwk_preset_default ctx request w in
      (signed answer, w')
  dispatch ctx (get id) w = let (answer, w') = Grpc.jwk_get x ctx id w in (found answer, w')
  dispatch ctx (list usage) w =
      let (answer, w') = Grpc.jwk_list x ctx usage w in (listed answer, w')

-- A request that arrives with a context of its own.
unfoldable pub serve :
    {Payload Value Claims Token Recipient : Type 0}
    → Golib
    → Externals
    → (Payload → Result Value)
    → Jwt Value Claims Token Plugin Recipient
    → Server
    → Context
    → Call Payload
    → World
    → Answer Token × World
serve g x unmarshal jwt server rp_ctx call w =
    dispatch x unmarshal jwt server.producers (ctx_interceptor g server.ctx rp_ctx) call w
