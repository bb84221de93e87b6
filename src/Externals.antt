-- ===== src/Externals.antt =====
-- What the service calls and the repository does not hold, as the operations of one record: the
-- NaCl secretbox, the JSON form of a key, UUID parsing, key generation, randomness, the clock, and
-- the database server's own behaviour. An operation whose answer changes from call to call takes
-- the number of the call. The laws that proofs rest on are records of their own.
use service_json_keys.Prelude.{ℕ, ◌+◌, String, ◌≡◌, Option, some, length}
use service_json_keys.Fault.{Result, ok}
use service_json_keys.Encoding.{Bytes, IsBytes}
use service_json_keys.Clock.{Time}
use service_json_keys.Types.{Uuid, Jwk}

-- The presets of the jwk package.
pub data EcdsaPreset : Type 0 where
  es256 es384 es512 : EcdsaPreset

pub data RsaPreset : Type 0 where
  rs256 rs384 rs512 ps256 ps384 ps512 : RsaPreset

pub record KeyPair : Type 0 where
  pub private : Jwk
  pub public : Jwk

pub record Externals : Type 0 where
  -- secretbox.Seal and secretbox.Open, by nonce, key and message; `seal` gives the sealed box
  -- alone.
  pub seal : Bytes → Bytes → Bytes → Bytes
  pub open_box : Bytes → Bytes → Bytes → Option Bytes
  -- json.Marshal and json.Unmarshal at a key; the JSON null unmarshals to a nil pointer.
  pub marshal : Jwk → Result Bytes
  pub unmarshal : Bytes → Result (Option Jwk)
  -- uuid.Parse
  pub parse_uuid : String → Result Uuid
  -- jwk.GenerateED25519, jwk.GenerateECDSA, jwk.GenerateRSA
  pub generate_ed25519 : ℕ → Result KeyPair
  pub generate_ecdsa : EcdsaPreset → ℕ → Result KeyPair
  pub generate_rsa : RsaPreset → ℕ → Result KeyPair
  -- io.ReadFull of the system's randomness into a nonce
  pub nonce : ℕ → Result Bytes
  -- time.Now
  pub now : ℕ → Time
  -- a failure of the connection or of the server, at a query
  pub database_fault : ℕ → Option String
  -- the failure of a ping
  pub ping_fault : ℕ → Option String
  -- storing an instant in a column of type timestamp(0)
  pub stamp : Time → Time

-- secretbox: a sealed byte string is a byte string, sixteen bytes longer, and opens under its nonce
-- and key to what was sealed.
pub record IsSecretbox (x : Externals) : Type 0 where
  pub open-seal :
      (nonce key message : Bytes)
      → IsBytes message
      → x.open_box nonce key (x.seal nonce key message) ≡ some message
  pub length-seal :
      (nonce key message : Bytes)
      → IsBytes message
      → length (x.seal nonce key message) ≡ 16 + length message
  pub seal-IsBytes :
      (nonce key message : Bytes) → IsBytes message → IsBytes (x.seal nonce key message)

-- json: a key that was marshalled unmarshals to itself.
pub record IsJson (x : Externals) : Type 0 where
  pub unmarshal-marshal :
      (k : Jwk) (text : Bytes) → x.marshal k ≡ ok text → x.unmarshal text ≡ ok (some k)
  pub marshal-IsBytes : (k : Jwk) (text : Bytes) → x.marshal k ≡ ok text → IsBytes text

-- io.ReadFull fills the whole buffer when it gives no error.
pub record IsRandom (x : Externals) : Type 0 where
  pub length-nonce : (n : ℕ) (bytes : Bytes) → x.nonce n ≡ ok bytes → length bytes ≡ 24
  pub nonce-IsBytes : (n : ℕ) (bytes : Bytes) → x.nonce n ≡ ok bytes → IsBytes bytes
