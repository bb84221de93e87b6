-- ===== src/Dao/Order.antt =====
-- ORDER BY created_at DESC: insertion sort, which keeps the order of rows that tie.
pub mod Laws
use service_json_keys.Prelude.{List, [], ◌∷◌, leb, if◌then◌else◌}
use service_json_keys.Types.{Row}

unfoldable pub place : Row → List Row → List Row
place r [] = r ∷ []
place r (s ∷ rows) = if leb s.created_at r.created_at then r ∷ s ∷ rows else s ∷ place r rows

unfoldable pub sort_newest : List Row → List Row
sort_newest [] = []
sort_newest (r ∷ rows) = place r (sort_newest rows)
