-- ===== src/Dao/Schema.antt =====
-- The table `keys` and the view `active_keys` of
-- internal/models/migrations/20260722072945_initial_schema.up.sql: the constraints that an
-- insertion is held to, and the conditions of the view, which are evaluated at each query.
use service_json_keys.Prelude.{
  Bool, true, false, ◌&&◌, ◌||◌, Option, none, some, List, [], ◌∷◌, ltb, ◌==◌, select,
}
use service_json_keys.Encoding.{Bytes}
use service_json_keys.Clock.{Time}
use service_json_keys.Types.{Uuid, Row}

abbrev pub is_null_or_later : Time → Option Time → Bool
is_null_or_later now none = true
is_null_or_later now (some t) = ltb now t

unfoldable pub is_active : Time → Row → Bool
is_active now r = ltb now r.expires_at && is_null_or_later now r.deleted_at

unfoldable pub active_keys : Time → List Row → List Row
active_keys now rows = select (is_active now) rows

abbrev pub is_null : Option Time → Bool
is_null none = true
is_null (some t) = false

-- The condition of the UPDATE in pg.jwkDelete.sql beside the identifier.
unfoldable pub is_deletable : Time → Row → Bool
is_deletable now r = is_null r.deleted_at && ltb now r.expires_at

abbrev pub is_empty : Bytes → Bool
is_empty [] = true
is_empty (b ∷ bs) = false

unfoldable pub has_id : Uuid → List Row → Bool
has_id id [] = false
has_id id (r ∷ rs) = r.id == id || has_id id rs

-- PRIMARY KEY, and CHECK (private_key <> '').
unfoldable pub conflicts : Row → List Row → Bool
conflicts row rows = has_id row.id rows || is_empty row.private_key
