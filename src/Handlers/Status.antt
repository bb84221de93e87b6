-- ===== src/Handlers/Status.antt =====
-- The status that a request for one key is answered with, over both transports.
use service_json_keys.Prelude.{String, ◌≡◌, refl, false, none, some, arith}
use service_json_keys.Fault.{ok, sentinel, jwk_not_found}
use service_json_keys.Types.{Uuid, Context, Handle, Jwk, Row}
use service_json_keys.Externals.{Externals}
use service_json_keys.World.{World}
use service_json_keys.Dao.Select.{IsSelected, not_found_iff, select_by_id_complete}
use service_json_keys.Dao.Insert.{IsTable}
use service_json_keys.Core.Extract.{extract}
use service_json_keys.Core.Select
use service_json_keys.Handlers.Grpc
use service_json_keys.Handlers.Grpc.{reply, status, invalid_argument, not_found, to_proto}
use service_json_keys.Handlers.Rest
use service_json_keys.Handlers.Rest.{Httpf, IsHttpf, json, failed}

module _ (h : Httpf) (x : Externals) (ctx : Context) (handle : Handle) (id : String) (key_id : Uuid)
    (w : World) where
  -- With a database that answers, a key of a parsed identifier that no active row has is answered
  -- with NotFound and 404.
  pub unknown_key :
      IsHttpf h
      → ctx.postgres ≡ some handle
      → x.database_fault w.step ≡ none
      → x.parse_uuid id ≡ ok key_id
      → ((r : Row) → ¬ IsSelected key_id w r)
      → ((Grpc.jwk_get x ctx id w).0 ≡ status not_found "jwk not found")
        × ((Rest.jwk_get h x ctx id w).0 ≡ failed 404)
  unfolding Grpc.jwk_get Rest.jwk_get Select.select
  unknown_key httpf connected up parsed nothing =
      let missed = (not_found_iff x ctx handle key_id w connected up).1 nothing in
      let named = httpf.named jwk_not_found 404 (sentinel jwk_not_found) refl in
      (ground arith, ground arith)

  -- With a database that answers, and the constraints of the table, a key whose active row has a
  -- public half that deserializes is answered with that half, over both transports.
  pub known_key :
      (r : Row) (jwk : Jwk)
      → ctx.postgres ≡ some handle
      → x.database_fault w.step ≡ none
      → x.parse_uuid id ≡ ok key_id
      → IsTable w.rows
      → IsSelected key_id w r
      → extract x ctx r false ≡ ok (some jwk)
      → ((Grpc.jwk_get x ctx id w).0 ≡ reply (to_proto jwk))
        × ((Rest.jwk_get h x ctx id w).0 ≡ json 200 (some jwk))
  unfolding Grpc.jwk_get Rest.jwk_get Select.select
  known_key r jwk connected up parsed table chosen public =
      let found = select_by_id_complete x ctx handle key_id w r connected up table chosen in
      (ground arith, ground arith)
