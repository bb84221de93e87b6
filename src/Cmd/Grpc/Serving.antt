-- ===== src/Cmd/Grpc/Serving.antt =====
-- What the start of the gRPC server gives, and the context that its handlers see.
use service_json_keys.Prelude.{◌≡◌, inl, inr, some, arith, length}
use service_json_keys.Fault.{Result, ok, >>=-eq-ok}
use service_json_keys.Encoding.{Bytes}
use service_json_keys.Encoding.Hex
use service_json_keys.Types.{Context, pool}
use service_json_keys.Externals.{Externals}
use service_json_keys.Config.{jwk_preset_default}
use service_json_keys.Config.Env.{Settings}
use service_json_keys.Config.App.{app_preset_default}
use service_json_keys.MasterKey.{transfer_master_key_context, master_key_length}
use service_json_keys.World.{World}
use service_json_keys.Core.Claims.{Jwt}
use service_json_keys.Core.Sources.{Plugin, new_jwk_private_source, new_jwk_producers}
use service_json_keys.Cmd.{Golib, IsGolib, boot, boot_outcome, codes, must-cases}
use service_json_keys.Cmd.Grpc.{Server, wire, start, ctx_interceptor, Call, dispatch, serve}

wire-eq-ok : (ctx : Context) (server : Server) → wire ctx ≡ ok server → server.ctx ≡ ctx
unfolding wire
wire-eq-ok ctx server wired = elim (must-cases (new_jwk_private_source jwk_preset_default)) [
  | inl e ↦ cc
  | inr (source, e) ↦ elim (must-cases (new_jwk_producers source jwk_preset_default)) [
    | inl e1 ↦ cc
    | inr (producers, e1) ↦ ground arith
  ]
]

-- A server that has started holds the pool, and the 32 bytes of its master key.
pub start_holds :
    (g : Golib) (env : Settings) (server : Server)
    → IsGolib g
    → start g env ≡ ok server
    → (key : Bytes) × (Hex.decode (codes env.app_master_key) ≡ ok key)
      × (length key ≡ master_key_length)
      × (server.ctx.master_key ≡ some key)
      × (server.ctx.postgres ≡ some pool)
unfolding start
start_holds g env server golib started =
    let cfg = app_preset_default env in
    let (ctx', booted, wired) = >>=-eq-ok (boot g cfg.app cfg.otel cfg.postgres) wire started in
    elim (boot_outcome g cfg.app cfg.otel cfg.postgres golib) [
      | inl e ↦ absurd (cc)
      | inr (ctx, key, e, read, sized, held, opened) ↦
          let same : ctx ≡ server.ctx = cc (e, booted, wire-eq-ok ctx' server wired) in
          (key, read, sized, rw (← same) held, rw (← same) opened)
    ]

pub ctx_interceptor_lem :
    (g : Golib) (env : Settings) (server : Server) (rp_ctx : Context)
    → IsGolib g
    → start g env ≡ ok server
    → ctx_interceptor g server.ctx rp_ctx ≡ server.ctx
unfolding ctx_interceptor transfer_master_key_context
ctx_interceptor_lem g env server rp_ctx golib started =
    let (key, _, _, held, opened) = start_holds g env server golib started in
    let (kept, _) = golib.transferred server.ctx rp_ctx in ground arith

-- After a start that succeeded, a request is handled in the server's own context, whatever context
-- it has come with: the reply and the state that it leaves are those of the handler at that
-- context.
pub serve-dispatch :
    {Payload Value Claims Token Recipient : Type 0} (g : Golib) (env : Settings) (x : Externals)
    (unmarshal : Payload → Result Value) (jwt : Jwt Value Claims Token Plugin Recipient)
    (server : Server) (rp_ctx : Context) (call : Call Payload) (w : World)
    → IsGolib g
    → start g env ≡ ok server
    → serve g x unmarshal jwt server rp_ctx call w
      ≡ dispatch x unmarshal jwt server.producers server.ctx call w
unfolding serve
serve-dispatch g env x unmarshal jwt server rp_ctx call w golib started =
    rw (ctx_interceptor_lem g env server rp_ctx golib started)
