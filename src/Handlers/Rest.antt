-- ===== src/Handlers/Rest.antt =====
-- internal/handlers/rest.jwkGet.go, rest.jwkList.go and rest.ping.go.
use service_json_keys.Prelude.{ℕ, String, ◌≡◌, false, true, Option, none, some, List, [], ◌∷◌}
use service_json_keys.Fault.{Error, Sentinel, Result, ok, err, panic, errors_is, jwk_not_found}
use service_json_keys.Types.{Context, Jwk}
use service_json_keys.Externals.{Externals}
use service_json_keys.World.{World}
use service_json_keys.Core.Search
use service_json_keys.Core.Select

-- httpf.ErrMap: a status for each error, the nil entry for any.
abbrev pub ErrMap : Type 0
ErrMap = List (Option Sentinel × ℕ)

-- httpf.HandleError, by the status that it answers with.
pub record Httpf : Type 0 where
  pub handle_error : ErrMap → Error → ℕ

-- What is relied upon of it: an error that an entry names has that entry's status, the nil entry
-- stands for any error, and an error that no entry names is an internal server error.
pub record IsHttpf (h : Httpf) : Type 0 where
  pub named :
      (s : Sentinel) (code : ℕ) (e : Error)
      → errors_is e s ≡ true
      → h.handle_error ((some s, code) ∷ []) e ≡ code
  pub unnamed :
      (s : Sentinel) (code : ℕ) (e : Error)
      → errors_is e s ≡ false
      → h.handle_error ((some s, code) ∷ []) e ≡ 500
  pub any : (code : ℕ) (e : Error) → h.handle_error ((none, code) ∷ []) e ≡ code
  pub empty : (e : Error) → h.handle_error [] e ≡ 500

-- What is written: a JSON body with its status, a text, an error status, or nothing for a panic.
pub data Response (A : Type 0) : Type 0 where
  json : ℕ → A → Response A
  text : ℕ → String → Response A
  failed : ℕ → Response A
  panicked : Response A

module _ (h : Httpf) (x : Externals) (ctx : Context) where
  abbrev pub get_response : Result (Option Jwk) → Response (Option Jwk)
  get_response (ok jwk) = json 200 jwk
  get_response (err e) = failed (h.handle_error ((some jwk_not_found, 404) ∷ []) e)
  get_response panic = panicked

  -- RestJwkGet.ServeHTTP
  unfoldable pub jwk_get : String → World → Response (Option Jwk) × World
  jwk_get raw_id w = elim (x.parse_uuid raw_id) [
    | err e ↦ (failed (h.handle_error ((none, 400) ∷ []) e), w)
    | panic ↦ (panicked, w)
    | ok key_id ↦ let (r, w') = Select.select x ctx key_id false w in (get_response r, w')
  ]

  abbrev pub list_response : Result (List (Option Jwk)) → Response (List (Option Jwk))
  list_response (ok jwks) = json 200 jwks
  list_response (err e) = failed (h.handle_error [] e)
  list_response panic = panicked

  -- RestJwkList.ServeHTTP
  unfoldable pub jwk_list : String → World → Response (List (Option Jwk)) × World
  jwk_list usage w = let (r, w') = Search.search x ctx usage false w in (list_response r, w')

-- RestPing.ServeHTTP
abbrev pub ping : Response (Unit {0})
ping = text 200 "pong"
