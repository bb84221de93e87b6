-- ===== src/Core/Extract.antt =====
-- internal/core/jwkExtract.go: from a stored row to a key, private or public.
pub mod Laws
use service_json_keys.Prelude.{Bool, true, false, not, ◌&&◌, Option, none, some, [], if◌then◌else◌}
use service_json_keys.Fault.{
  Result, ok, err, sentinel, wrap, jwk_extract_no_public_key, map_error, ◌>>=◌,
}
use service_json_keys.Encoding.{Bytes}
use service_json_keys.Encoding.Base64
use service_json_keys.Types.{Context, Jwk, Row}
use service_json_keys.Externals.{Externals}
use service_json_keys.MasterKey.{decrypt_master_key}

abbrev is_nil : Option Bytes → Bool
is_nil none = true
is_nil (some text) = false

-- lo.FromPtr
abbrev from_ptr : Option Bytes → Bytes
from_ptr none = []
from_ptr (some text) = text

-- JwkExtract.Exec. A nil key, without an error, is what the JSON null deserializes to.
unfoldable pub extract : Externals → Context → Row → Bool → Result (Option Jwk)
extract x ctx jwk private =
    if not private && is_nil jwk.public_key then err (sentinel jwk_extract_no_public_key) else do
      decoded ←
          map_error (wrap "decode request.Jwk")
            (Base64.decode (if private then jwk.private_key else from_ptr jwk.public_key))
      map_error (wrap "deserialize request.Jwk")
          (if private then decrypt_master_key x ctx decoded else x.unmarshal decoded)
