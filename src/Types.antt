-- ===== src/Types.antt =====
-- The values that several parts of the service share: key identifiers, the deserialized JSON Web
-- Key (internal/core/jwk.go), the request context, and the stored key (internal/dao/pg.jwk.go).
use service_json_keys.Prelude.{ℕ, String, Option, List}
use service_json_keys.Encoding.{Bytes}
use service_json_keys.Clock.{Time}

-- uuid.UUID, its sixteen bytes read as one number.
abbrev pub Uuid : Type 0
Uuid = ℕ

-- jwa.JWK, with the fields that the service reads and writes.
pub record Jwk : Type 0 where
  pub kty : String
  pub use_ : String
  pub key_ops : List String
  pub alg : String
  pub kid : String
  pub payload : Bytes

-- What postgres.GetContext finds in a context: the pool itself, or a transaction.
pub data Handle : Type 0 where
  pool : Handle
  transaction : Handle

-- A context.Context, by the two values that the service looks up in it.
pub record Context : Type 0 where
  pub master_key : Option Bytes
  pub postgres : Option Handle

-- dao.Jwk, a row of the table `keys`.
pub record Row : Type 0 where
  pub id : Uuid
  pub private_key : Bytes
  pub public_key : Option Bytes
  pub usage : String
  pub created_at : Time
  pub expires_at : Time
  pub deleted_at : Option Time
  pub deleted_comment : Option String
