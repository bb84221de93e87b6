-- ===== src/Cmd/Rest/ReadOnly.antt =====
-- What the public server leaves alone.
use service_json_keys.Prelude.{
  length, suc, false, String, ◌≡◌, refl, ap, ◌∙◌, inl, inr, Option, none, some, List, [], ◌∷◌,
  arith,
}
use service_json_keys.Fault.{Result-cases}
use service_json_keys.Types.{Uuid, Context}
use service_json_keys.Externals.{Externals}
use service_json_keys.World.{World}
use service_json_keys.Handlers.Health.{rest_health, rest_report_postgres}
use service_json_keys.Handlers.Rest
use service_json_keys.Handlers.Rest.{Httpf, Response}
use service_json_keys.Core.Select
use service_json_keys.Dao
use service_json_keys.Cmd.Rest.{
  Endpoint, ping, health, jwk_list, jwk_get, routes, Request, Chi, dispatch, serve, serve_all,
}
use service_json_keys.Cmd.Rest.Public.{search-search}

IsKept : World → World → Type 0
IsKept w v = (v.rows ≡ w.rows) × (v.db_time ≡ w.db_time)

search-IsKept :
    (x : Externals) (ctx : Context) (usage : String) (w : World)
    → IsKept w (Dao.search x ctx usage w).1
unfolding Dao.search IsKept
search-IsKept x ctx usage w = ground arith

select-IsKept :
    (x : Externals) (ctx : Context) (id : Uuid) (w : World)
    → IsKept w (Select.select x ctx id false w).1
unfolding Select.select Dao.select_by_id IsKept
select-IsKept x ctx id w = ground arith

dispatch-IsKept :
    (h : Httpf) (x : Externals) (ctx : Context) (to : Option Endpoint) (request : Request)
    (w : World)
    → IsKept w (dispatch h x ctx to request w).1
unfolding rest_health rest_report_postgres Rest.jwk_list Rest.jwk_get IsKept
dispatch-IsKept h x ctx none request w = (refl, refl)
dispatch-IsKept h x ctx (some ping) request w = (refl, refl)
dispatch-IsKept h x ctx (some health) request w = ground arith
dispatch-IsKept h x ctx (some jwk_list) request w =
    rw (search-search x ctx (request.query "usage") w)
      (search-IsKept x ctx (request.query "usage") w)
dispatch-IsKept h x ctx (some jwk_get) request w =
    elim (Result-cases (x.parse_uuid (request.query "id"))) [
      | inl (id, e) ↦ rw (e, Rest.jwk_get) (select-IsKept x ctx id w)
      | inr (inl (_, e)) ↦ rw (e, Rest.jwk_get) (refl, refl)
      | inr (inr e) ↦ rw (e, Rest.jwk_get) (refl, refl)
    ]

-- The public server answers every request of any sequence, one answer for each, and changes neither
-- the table nor the database's clock, whatever the requests are and whatever fails.
pub rest_read_only :
    (h : Httpf) (x : Externals) (ctx : Context) (chi : Chi) (requests : List Request) (w : World)
    → (length (serve_all h x ctx chi requests w).0 ≡ length requests)
      × ((serve_all h x ctx chi requests w).1.rows ≡ w.rows)
      × ((serve_all h x ctx chi requests w).1.db_time ≡ w.db_time)
unfolding serve_all serve IsKept
rest_read_only h x ctx chi [] w = (refl, refl, refl)
rest_read_only h x ctx chi (request ∷ requests) w =
    let to = chi.route routes request.method request.path in
    let (rows, db_time) = dispatch-IsKept h x ctx to request w in
    let (answered, kept, still) =
      rest_read_only h x ctx chi requests (dispatch h x ctx to request w).1 in
    (ap suc answered, kept ∙ rows, still ∙ db_time)
