-- ===== src/Core/Search.antt =====
-- internal/core/jwkSearch.go, and internal/core/jwkExportLocal.go, which asks it for private keys.
use service_json_keys.Prelude.{String, Bool, true, Option, List, [], ◌∷◌}
use service_json_keys.Fault.{Result, ok, wrap, map_error}
use service_json_keys.Fault
use service_json_keys.Types.{Context, Jwk, Row}
use service_json_keys.Externals.{Externals}
use service_json_keys.World.{Exec, lift, on_error, ◌>>=◌}
use service_json_keys.Dao
use service_json_keys.Core.Extract.{extract}

-- The loop over the entities; the first that fails ends it.
unfoldable pub extract_all : Externals → Context → Bool → List Row → Result (List (Option Jwk))
extract_all x ctx private [] = ok []
extract_all x ctx private (entity ∷ entities) =
    let later = extract_all x ctx private entities in
    Fault.◌>>=◌ (map_error (wrap "consume DAO entity") (extract x ctx entity private))
      λ key. Fault.◌>>=◌ later λ keys. ok (key ∷ keys)

-- JwkSearch.Exec
unfoldable pub search : Externals → Context → String → Bool → Exec (List (Option Jwk))
unfolding ◌>>=◌
search x ctx usage private = do
  entities ← on_error (wrap "search entities") (Dao.search x ctx usage)
  lift (extract_all x ctx private entities)

-- JwkExportLocal.SearchKeys
unfoldable pub search_keys : Externals → Context → String → Exec (List (Option Jwk))
unfolding search
search_keys x ctx usage = search x ctx usage true
