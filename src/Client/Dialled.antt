-- ===== src/Client/Dialled.antt =====
-- A client that has dialled the gRPC server: its keys, and its verifier.
use service_json_keys.Prelude.{String, ◌≡◌, ap, ◌∙◌, List}
use service_json_keys.Fault.{Result, ok}
use service_json_keys.Types.{Context}
use service_json_keys.Externals.{Externals}
use service_json_keys.Config.Env.{Settings}
use service_json_keys.World.{World}
use service_json_keys.Core.Claims.{Jwt}
use service_json_keys.Core.Search
use service_json_keys.Core.Sources.{Plugin}
use service_json_keys.Handlers.Grpc.{ProtoJwk, reply}
use service_json_keys.Client.{BaseClient, Client}
use service_json_keys.Client.Keys.{IsConnected}
use service_json_keys.Cmd.{Golib, IsGolib}
use service_json_keys.Cmd.Grpc.{Server, Call, listed, start, serve, dispatch}
use service_json_keys.Cmd.Grpc.Serving.{serve-dispatch}

module _ {Payload Value Claims Token Recipient : Type 0} (g : Golib) (x : Externals)
    (unmarshal : Payload → Result Value) (jwt : Jwt Value Claims Token Plugin Recipient)
    (server : Server) where
  -- The connection leads to the server: a list that the server replies with, to a request that
  -- arrives with some context, is what the call gives.
  pub record LeadsTo (client : BaseClient) : Type 0 where
    pub arrived : Context
    pub replied :
        (usage : String) (w : World) (items : List ProtoJwk)
        → (serve g x unmarshal jwt server arrived (Call.list usage) w).0 ≡ listed (reply items)
        → client.jwk_list usage w
          ≡ (ok items, (serve g x unmarshal jwt server arrived (Call.list usage) w).1)

  pub connected :
      (env : Settings) (client : BaseClient)
      → IsGolib g
      → start g env ≡ ok server
      → LeadsTo client
      → IsConnected client x server.ctx
  unfolding dispatch
  connected env client golib started leads = record {
    replied = λ usage w items h.
        let handled =
          serve-dispatch g env x unmarshal jwt server leads.arrived (Call.list usage) w golib
            started in
        leads.replied usage w items (ap (λ p. p.0) handled ∙ ap listed h)
        ∙ ap (λ p. (ok items, p.1)) handled;
  }
