-- ===== src/Core/Select.antt =====
-- internal/core/jwkSelect.go
use service_json_keys.Prelude.{Bool, Option, if◌then◌else◌}
use service_json_keys.Fault.{
  Error, sentinel, wrap, errors_is, jwk_not_found, jwk_select_not_found, map_error,
}
use service_json_keys.Types.{Uuid, Context, Jwk}
use service_json_keys.Externals.{Externals}
use service_json_keys.World.{Exec, lift, on_error, ◌>>=◌}
use service_json_keys.Dao
use service_json_keys.Core.Extract.{extract}

-- The data access layer's missing row is the service's missing key.
abbrev pub select_key : Error → Error
select_key e =
    if errors_is e jwk_select_not_found then sentinel jwk_not_found else wrap "select key" e

-- JwkSelect.Exec
unfoldable pub select : Externals → Context → Uuid → Bool → Exec (Option Jwk)
unfolding ◌>>=◌
select x ctx id private = do
  entity ← on_error select_key (Dao.select_by_id x ctx id)
  lift (map_error (wrap "deserialize key") (extract x ctx entity private))
