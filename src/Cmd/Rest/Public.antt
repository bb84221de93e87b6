-- ===== src/Cmd/Rest/Public.antt =====
-- What the answers of the public server depend on.
use service_json_keys.Prelude.{
  false, String, ◌≡◌, refl, sym, ap, ◌∙◌, inl, inr, Option, none, some, List, [], ◌∷◌, arith,
}
use service_json_keys.Fault.{ok, Result-cases}
use service_json_keys.Types.{Uuid, Context, pool}
use service_json_keys.Externals.{Externals}
use service_json_keys.World.{World}
use service_json_keys.Config.Env.{Settings}
use service_json_keys.Config.App.{app_preset_default}
use service_json_keys.Handlers.Health.{rest_health, rest_report_postgres}
use service_json_keys.Handlers.Rest
use service_json_keys.Handlers.Rest.{Httpf, Response}
use service_json_keys.Handlers.Privacy.{search-publish, select-publish}
use service_json_keys.Handlers.Privacy.Rows.{publish, public_context, rows_world}
use service_json_keys.Cmd.{Golib, IsGolib, boot_outcome}
use service_json_keys.Core.Search
use service_json_keys.Core.Select
use service_json_keys.Dao
use service_json_keys.Cmd.Rest.{
  Endpoint, ping, health, jwk_list, jwk_get, routes, Request, Chi, dispatch, serve, serve_all,
  start,
}

pub search-search :
    (x : Externals) (ctx : Context) (usage : String) (w : World)
    → (Search.search x ctx usage false w).1 ≡ (Dao.search x ctx usage w).1
unfolding Search.search
search-search x ctx usage w = ground arith

search_world :
    (x : Externals) (ctx : Context) (usage : String) (w : World)
    → (Search.search x (public_context ctx) usage false (publish w)).1
      ≡ publish (Search.search x ctx usage false w).1
search_world x ctx usage w =
    search-search x (public_context ctx) usage (publish w)
    ∙ rows_world x ctx usage w
    ∙ ap publish (sym (search-search x ctx usage w))

select_world :
    (x : Externals) (ctx : Context) (id : Uuid) (w : World)
    → (Select.select x (public_context ctx) id false (publish w)).1
      ≡ publish (Select.select x ctx id false w).1
unfolding Select.select Dao.select_by_id
select_world x ctx id w = ground arith

dispatch-publish :
    (h : Httpf) (x : Externals) (ctx : Context) (to : Option Endpoint) (request : Request)
    (w : World)
    → dispatch h x (public_context ctx) to request (publish w)
      ≡ ((dispatch h x ctx to request w).0, publish (dispatch h x ctx to request w).1)
unfolding rest_health rest_report_postgres Rest.jwk_list Rest.jwk_get
dispatch-publish h x ctx none request w = refl
dispatch-publish h x ctx (some ping) request w = refl
dispatch-publish h x ctx (some health) request w = ground arith
dispatch-publish h x ctx (some jwk_list) request w =
    rw
      (search_world x ctx (request.query "usage") w, search-publish x ctx (request.query "usage") w)
dispatch-publish h x ctx (some jwk_get) request w =
    elim (Result-cases (x.parse_uuid (request.query "id"))) [
      | inl (id, e) ↦ rw (e, Rest.jwk_get, select_world x ctx id w, select-publish x ctx id w)
      | inr (inl (_, e)) ↦ rw (e, Rest.jwk_get)
      | inr (inr e) ↦ rw (e, Rest.jwk_get)
    ]

serve_all-publish :
    (h : Httpf) (x : Externals) (ctx : Context) (chi : Chi) (requests : List Request) (w : World)
    → serve_all h x (public_context ctx) chi requests (publish w)
      ≡ ((serve_all h x ctx chi requests w).0, publish (serve_all h x ctx chi requests w).1)
unfolding serve_all serve
serve_all-publish h x ctx chi [] w = refl
serve_all-publish h x ctx chi (request ∷ requests) w = rw (
  dispatch-publish h x ctx (chi.route routes request.method request.path) request w,
  serve_all-publish h x ctx chi requests
      (dispatch h x ctx (chi.route routes request.method request.path) request w).1,
)

start_pool :
    (g : Golib) (env : Settings) (ctx : Context)
    → IsGolib g
    → start g env ≡ ok ctx
    → ctx.postgres ≡ some pool
unfolding start
start_pool g env ctx golib started =
    let cfg = app_preset_default env in
    elim (boot_outcome g cfg.app cfg.otel cfg.postgres golib) [
      | inl e ↦ cc
      | inr (other, _, e, _, _, _, opened) ↦ cc
    ]

-- Two public servers, whose settings may differ in the master key and in all else, answer any
-- sequence of requests alike from states that agree but for the private keys of their rows: an
-- answer never depends on a private key, or on the master key.
pub rest_public :
    (g : Golib) (h : Httpf) (x : Externals) (chi : Chi) (requests : List Request)
    (env env' : Settings) (ctx ctx' : Context) (w v : World)
    → IsGolib g
    → start g env ≡ ok ctx
    → start g env' ≡ ok ctx'
    → publish w ≡ publish v
    → (serve_all h x ctx chi requests w).0 ≡ (serve_all h x ctx' chi requests v).0
rest_public g h x chi requests env env' ctx ctx' w v golib started started' same =
    let alike : public_context ctx ≡ public_context ctx' =
      cc (start_pool g env ctx golib started, start_pool g env' ctx' golib started') in
    ap (λ p. p.0) (sym (serve_all-publish h x ctx chi requests w))
    ∙ (λ i. (serve_all h x (alike i) chi requests (same i)).0)
    ∙ ap (λ p. p.0) (serve_all-publish h x ctx' chi requests v)
