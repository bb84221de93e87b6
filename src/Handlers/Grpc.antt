-- ===== src/Handlers/Grpc.antt =====
-- internal/handlers/grpc.jwkGet.go and grpc.jwkList.go.
use service_json_keys.Prelude.{String, false, Option, none, some, List, [], ◌∷◌, if◌then◌else◌}
use service_json_keys.Fault.{Result, ok, err, panic, errors_is, jwk_not_found}
use service_json_keys.Encoding.{Bytes}
use service_json_keys.Types.{Context, Jwk}
use service_json_keys.Externals.{Externals}
use service_json_keys.World.{World}
use service_json_keys.Core.Search
use service_json_keys.Core.Select

-- The codes of google.golang.org/grpc/codes that the handlers answer with.
pub data Code : Type 0 where
  invalid_argument not_found unavailable internal : Code

-- What a handler returns: a message, or a status error. A nil pointer that is followed panics.
pub data Reply (A : Type 0) : Type 0 where
  reply : A → Reply A
  status : Code → String → Reply A
  panicked : Reply A

-- jsonkeysv2.Jwk
pub record ProtoJwk : Type 0 where
  pub kty : String
  pub use_ : String
  pub key_ops : List String
  pub alg : String
  pub kid : String
  pub payload : Bytes

abbrev pub to_proto : Jwk → ProtoJwk
to_proto jwk = record {
  kty = jwk.kty;
  use_ = jwk.use_;
  key_ops = jwk.key_ops;
  alg = jwk.alg;
  kid = jwk.kid;
  payload = jwk.payload;
}

abbrev pub get_reply : Result (Option Jwk) → Reply ProtoJwk
get_reply (ok (some jwk)) = reply (to_proto jwk)
get_reply (ok none) = panicked
get_reply (err e) =
    if errors_is e jwk_not_found
    then status not_found "jwk not found"
    else status internal "internal error"
get_reply panic = panicked

-- GrpcJwkGet.JwkGet
unfoldable pub jwk_get : Externals → Context → String → World → Reply ProtoJwk × World
jwk_get x ctx id w = elim (x.parse_uuid id) [
  | err e ↦ (status invalid_argument "invalid key id", w)
  | panic ↦ (panicked, w)
  | ok key_id ↦ let (r, w') = Select.select x ctx key_id false w in (get_reply r, w')
]

-- lo.Map over the keys; a nil one panics.
unfoldable pub to_protos : List (Option Jwk) → Reply (List ProtoJwk)
to_protos [] = reply []
to_protos (none ∷ jwks) = panicked
to_protos (some jwk ∷ jwks) =
    let rest = to_protos jwks in
    elim rest [
      | reply keys ↦ reply (to_proto jwk ∷ keys)
      | status code message ↦ status code message
      | panicked ↦ panicked
    ]

abbrev pub list_reply : Result (List (Option Jwk)) → Reply (List ProtoJwk)
list_reply (ok jwks) = to_protos jwks
list_reply (err e) = status internal "internal error"
list_reply panic = panicked

-- GrpcJwkList.JwkList
unfoldable pub jwk_list : Externals → Context → String → World → Reply (List ProtoJwk) × World
jwk_list x ctx usage w = let (r, w') = Search.search x ctx usage false w in (list_reply r, w')
