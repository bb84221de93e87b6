-- ===== src/Handlers/Privacy.antt =====
-- What the public reads of a key depend on: not on the private keys of the table, and not on the
-- master key. Both transports ask the services for public keys only.
pub mod Rows
use service_json_keys.Prelude.{
  String, ◌≡◌, refl, sym, ap, ◌∙◌, inl, inr, Bool, true, false, Option, none, some, List, [], ◌∷◌,
  map, arith,
}
use service_json_keys.Fault.{Result, ok, err, panic, Result-cases}
use service_json_keys.Types.{Uuid, Context, Handle, Jwk, Row}
use service_json_keys.Externals.{Externals}
use service_json_keys.World.{World, query, ◌>>=◌}
use service_json_keys.Dao
use service_json_keys.Core.Extract.{extract}
use service_json_keys.Core.Search
use service_json_keys.Core.Select
use service_json_keys.Handlers.Grpc
use service_json_keys.Handlers.Rest
use service_json_keys.Handlers.Rest.{Httpf}
use service_json_keys.Handlers.Privacy.Rows.{hide, publish, public_context, rows_search, row_select}

extract_all-hide :
    (x : Externals) (ctx : Context) (rows : List Row)
    → Search.extract_all x (public_context ctx) false (map hide rows)
      ≡ Search.extract_all x ctx false rows
unfolding Search.extract_all extract
extract_all-hide x ctx [] = refl
extract_all-hide x ctx (r ∷ rows) = rw (extract_all-hide x ctx rows)

extract-hide :
    (x : Externals) (ctx : Context) (row : Row)
    → extract x (public_context ctx) (hide row) false ≡ extract x ctx row false
unfolding extract
extract-hide x ctx row = refl

pub search-publish :
    (x : Externals) (ctx : Context) (usage : String) (w : World)
    → (Search.search x (public_context ctx) usage false (publish w)).0
      ≡ (Search.search x ctx usage false w).0
unfolding Search.search
search-publish x ctx usage w = elim (Result-cases (Dao.search x ctx usage w).0) [
  | inl (rows, e) ↦ ground (arith, rows_search x ctx usage w, extract_all-hide x ctx rows)
  | inr e ↦ ground (arith, rows_search x ctx usage w)
]

pub select-publish :
    (x : Externals) (ctx : Context) (id : Uuid) (w : World)
    → (Select.select x (public_context ctx) id false (publish w)).0
      ≡ (Select.select x ctx id false w).0
unfolding Select.select
select-publish x ctx id w = elim (Result-cases (Dao.select_by_id x ctx id w).0) [
  | inl (row, e) ↦ ground (arith, row_select x ctx id w, extract-hide x ctx row)
  | inr e ↦ ground (arith, row_select x ctx id w)
]

-- Two states that agree but for the private keys of their rows, and two contexts that agree but for
-- the master key, have the same public keys of a usage on both transports.
pub jwk_list_public :
    (h : Httpf) (x : Externals) (ctx ctx' : Context) (usage : String) (w v : World)
    → publish w ≡ publish v
    → public_context ctx ≡ public_context ctx'
    → ((Grpc.jwk_list x ctx usage w).0 ≡ (Grpc.jwk_list x ctx' usage v).0)
      × ((Rest.jwk_list h x ctx usage w).0 ≡ (Rest.jwk_list h x ctx' usage v).0)
unfolding Grpc.jwk_list Rest.jwk_list
jwk_list_public h x ctx ctx' usage w v same_world same_context =
    let same : (Search.search x ctx usage false w).0 ≡ (Search.search x ctx' usage false v).0 =
      sym (search-publish x ctx usage w)
      ∙ (λ i. (Search.search x (same_context i) usage false (same_world i)).0)
      ∙ search-publish x ctx' usage v in
    (ap Grpc.list_reply same, ap (Rest.list_response h x ctx) same)

-- Two states that agree but for the private keys of their rows, and two contexts that agree but for
-- the master key, give the same reply to a request for the key of an identifier, on both
-- transports.
pub jwk_get_public :
    (h : Httpf) (x : Externals) (ctx ctx' : Context) (id : String) (w v : World)
    → publish w ≡ publish v
    → public_context ctx ≡ public_context ctx'
    → ((Grpc.jwk_get x ctx id w).0 ≡ (Grpc.jwk_get x ctx' id v).0)
      × ((Rest.jwk_get h x ctx id w).0 ≡ (Rest.jwk_get h x ctx' id v).0)
unfolding Grpc.jwk_get Rest.jwk_get
jwk_get_public h x ctx ctx' id w v same_world same_context = elim (Result-cases (x.parse_uuid id)) [
  | inl (key_id, e) ↦
      let same : (Select.select x ctx key_id false w).0 ≡ (Select.select x ctx' key_id false v).0 =
        sym (select-publish x ctx key_id w)
        ∙ (λ i. (Select.select x (same_context i) key_id false (same_world i)).0)
        ∙ select-publish x ctx' key_id v in
      rw (e, Grpc.jwk_get, Rest.jwk_get)
        (ap Grpc.get_reply same, ap (Rest.get_response h x ctx) same)
  | inr (inl (_, e)) ↦ rw (e, Grpc.jwk_get, Rest.jwk_get) (refl, refl)
  | inr (inr e) ↦ rw (e, Grpc.jwk_get, Rest.jwk_get) (refl, refl)
]
