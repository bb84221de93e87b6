-- ===== src/Cmd/Healthcheck.antt =====
-- What the two servers report of the database once they have started.
use service_json_keys.Prelude.{String, ◌+◌, ◌≡◌, ◌⊎◌, inl, inr, none, some, arith, Option-cases}
use service_json_keys.Fault.{Result, ok}
use service_json_keys.Types.{Context, pool}
use service_json_keys.Externals.{Externals}
use service_json_keys.World.{World}
use service_json_keys.Config.Env.{Settings}
use service_json_keys.Config.App.{app_preset_default}
use service_json_keys.Core.Claims.{Jwt}
use service_json_keys.Core.Sources.{Plugin}
use service_json_keys.Handlers.Health.{
  rest_health, rest_report_postgres, new_rest_health_status, grpc_report_postgres,
  new_grpc_health_status, rest_health_status_up, rest_health_status_down, grpc_status,
  dependency_status_up, dependency_status_down,
}
use service_json_keys.Handlers.Rest.{Httpf}
use service_json_keys.Cmd.{Golib, IsGolib, boot_outcome}
use service_json_keys.Cmd.Grpc
use service_json_keys.Cmd.Grpc.{Server, Call}
use service_json_keys.Cmd.Grpc.Serving.{start_holds, serve-dispatch}
use service_json_keys.Cmd.Rest
use service_json_keys.Cmd.Rest.{Chi, Request, Endpoint, routes}

rest-holds :
    (g : Golib) (env : Settings) (ctx : Context)
    → IsGolib g
    → Rest.start g env ≡ ok ctx
    → ctx.postgres ≡ some pool
unfolding Rest.start
rest-holds g env ctx golib started =
    let cfg = app_preset_default env in
    elim (boot_outcome g cfg.app cfg.otel cfg.postgres golib) [
      | inl e ↦ absurd (cc)
      | inr (made, key, e, read, sized, held, opened) ↦ cc (e, started, opened)
    ]

-- A gRPC server and a REST server that have started report the database alike, whatever context a
-- status request has come with: as up when a ping of the database succeeds at that moment, and as
-- down when it fails. A report costs one outside call, and changes nothing else. The REST request
-- is one that the router leads to the handler of the health check.
pub health_reported :
    {Payload Value Claims Token Recipient : Type 0} (g : Golib) (h : Httpf) (x : Externals)
    (unmarshal : Payload → Result Value) (jwt : Jwt Value Claims Token Plugin Recipient)
    (env rest_env : Settings) (server : Server) (ctx rp_ctx : Context) (chi : Chi)
    (request : Request) (w : World)
    → IsGolib g
    → Grpc.start g env ≡ ok server
    → Rest.start g rest_env ≡ ok ctx
    → chi.route routes request.method request.path ≡ some Endpoint.health
    → ((x.ping_fault w.step ≡ none)
        × (Grpc.serve g x unmarshal jwt server rp_ctx Call.status w ≡ (
          Grpc.assessed (record { status = dependency_status_up }),
          record w { step = w.step + 1 },
        ))
        × (Rest.serve h x ctx chi request w ≡ (
          Rest.assessed (record { status = rest_health_status_up }),
          record w { step = w.step + 1 },
        )))
      ⊎ ((message : String) × (x.ping_fault w.step ≡ some message)
          × (Grpc.serve g x unmarshal jwt server rp_ctx Call.status w ≡ (
            Grpc.assessed (record { status = dependency_status_down }),
            record w { step = w.step + 1 },
          ))
          × (Rest.serve h x ctx chi request w ≡ (
            Rest.assessed (record { status = rest_health_status_down }),
            record w { step = w.step + 1 },
          )))
unfolding Grpc.dispatch grpc_status grpc_report_postgres new_grpc_health_status Rest.serve
    rest_health rest_report_postgres new_rest_health_status
health_reported g h x unmarshal jwt env rest_env server ctx rp_ctx chi request w golib started
      rest_started routed =
    let (_, _, _, _, held) = start_holds g env server golib started in
    let rest_held = rest-holds g rest_env ctx golib rest_started in
    let handled = serve-dispatch g env x unmarshal jwt server rp_ctx Call.status w golib started in
    elim (Option-cases (x.ping_fault w.step)) [
      | inl up ↦ inl (up, rw (handled, held) (ground arith), rw (routed, rest_held) (ground arith))
      | inr (message, down) ↦
          inr (
            message,
            down,
            rw (handled, held) (ground arith),
            rw (routed, rest_held) (ground arith),
          )
    ]
