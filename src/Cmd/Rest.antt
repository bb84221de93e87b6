-- ===== src/Cmd/Rest.antt =====
-- cmd/rest/main.go: the routes of the public server, and what it answers to a request. The server
-- is modelled up to chi's middleware, which sees the reply behind the handlers.
pub mod Public
pub mod ReadOnly
use service_json_keys.Prelude.{
  length, suc, false, String, ◌≡◌, refl, sym, ap, ◌∙◌, ◌⊎◌, inl, inr, Option, none, some, List, [],
  ◌∷◌, arith,
}
use service_json_keys.Fault.{Result, ok, panic, Result-cases}
use service_json_keys.Types.{Uuid, Context, Jwk, pool}
use service_json_keys.Externals.{Externals}
use service_json_keys.World.{World}
use service_json_keys.Config.Env.{Settings}
use service_json_keys.Config.App.{App, app_preset_default}
use service_json_keys.Handlers.Health.{RestHealthStatus, rest_health, rest_report_postgres}
use service_json_keys.Handlers.Rest
use service_json_keys.Handlers.Rest.{Httpf, Response}
use service_json_keys.Handlers.Privacy.{search-publish, select-publish}
use service_json_keys.Handlers.Privacy.Rows.{publish, public_context, rows_world}
use service_json_keys.Cmd.{Golib, IsGolib, boot, boot_outcome}
use service_json_keys.Core.Search
use service_json_keys.Core.Select
use service_json_keys.Dao

-- The handlers that routes lead to.
pub data Endpoint : Type 0 where
  ping health jwk_list jwk_get : Endpoint

-- `router.Route("/v2", ...)`: the method, the path and the handler of each route.
abbrev pub routes : List (String × String × Endpoint)
routes =
    ("GET", "/v2/ping", ping)
    ∷ ("GET", "/v2/healthcheck", health)
    ∷ ("GET", "/v2/jwks", jwk_list)
    ∷ ("GET", "/v2/jwk", jwk_get)
    ∷ []

-- An http.Request, by what the router and the handlers read of it; `query` is r.URL.Query().Get.
pub record Request : Type 0 where
  pub method : String
  pub path : String
  pub query : String → String

-- chi's choice among registered routes.
pub record Chi : Type 0 where
  pub route : List (String × String × Endpoint) → String → String → Option Endpoint

-- What a handler wrote; or the router's own answer to a request without a route.
pub data Answer : Type 0 where
  ponged : Response (Unit {0}) → Answer
  assessed : RestHealthStatus → Answer
  listed : Response (List (Option Jwk)) → Answer
  found : Response (Option Jwk) → Answer
  unrouted : Answer

module _ (h : Httpf) (x : Externals) (ctx : Context) where
  abbrev pub dispatch : Option Endpoint → Request → World → Answer × World
  dispatch none request w = (unrouted, w)
  dispatch (some ping) request w = (ponged Rest.ping, w)
  dispatch (some health) request w = let (status, w') = rest_health x ctx w in (assessed status, w')
  dispatch (some jwk_list) request w =
      let (response, w') = Rest.jwk_list h x ctx (request.query "usage") w in (listed response, w')
  dispatch (some jwk_get) request w =
      let (response, w') = Rest.jwk_get h x ctx (request.query "id") w in (found response, w')

  -- The server's handler; every request has the context of the server, its BaseContext.
  unfoldable pub serve : Chi → Request → World → Answer × World
  serve chi request w = dispatch (chi.route routes request.method request.path) request w

  -- Requests one after another.
  unfoldable pub serve_all : Chi → List Request → World → List Answer × World
  serve_all chi [] w = ([], w)
  serve_all chi (request ∷ requests) w =
      let (answer, w') = serve chi request w in
      let (answers, v) = serve_all chi requests w' in (answer ∷ answers, v)

-- The context that the command starts with, from the settings of its process.
unfoldable pub start : Golib → Settings → Result Context
unfolding app_preset_default
start g env = let cfg = app_preset_default env in boot g cfg.app cfg.otel cfg.postgres
