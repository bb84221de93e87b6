-- ===== src/Core/Extract/Laws.antt =====
-- What an extraction reads of a row.
use service_json_keys.Prelude.{Bool, ◌≡◌, refl, true, false, Option, none, some}
use service_json_keys.Fault.{ok, err, sentinel, jwk_extract_no_public_key}
use service_json_keys.Encoding.{Bytes, IsBytes}
use service_json_keys.Encoding.Base64
use service_json_keys.Encoding.Base64.Laws
use service_json_keys.Types.{Context, Context, Jwk, Row}
use service_json_keys.Externals.{Externals}
use service_json_keys.MasterKey.{master_key_context, decrypt_master_key, decrypt_master_key}
use service_json_keys.Core.Extract.{extract}

module _ (x : Externals) (ctx : Context) where
  pub extract-private :
      (row : Row) (bytes : Bytes) (key : Option Jwk)
      → IsBytes bytes
      → row.private_key ≡ Base64.encode bytes
      → decrypt_master_key x ctx bytes ≡ ok key
      → extract x ctx row true ≡ ok key
  unfolding extract
  extract-private row bytes key valid is decrypted =
      rw (is, Laws.decode-encode bytes valid, decrypted)

  pub extract-public :
      (row : Row) (bytes : Bytes) (key : Option Jwk)
      → IsBytes bytes
      → row.public_key ≡ some (Base64.encode bytes)
      → x.unmarshal bytes ≡ ok key
      → extract x ctx row false ≡ ok key
  unfolding extract
  extract-public row bytes key valid is read = rw (is, Laws.decode-encode bytes valid, read)

  -- The public half is read without the private key, and without what the context holds.
  pub extract_of_public :
      (ctx' : Context) (row : Row) (private_key : Bytes)
      → extract x ctx' (record row { private_key = private_key }) false ≡ extract x ctx row false
  unfolding extract
  extract_of_public ctx' row private_key = refl

  -- Without a public half, a caller that may not see the private key is refused.
  pub extract_refused :
      (row : Row)
      → row.public_key ≡ none
      → extract x ctx row false ≡ err (sentinel jwk_extract_no_public_key)
  unfolding extract
  extract_refused row h = rw h

-- What is read of a row depends on the master key of the context alone.
pub extract-master_key :
    (x : Externals) (ctx other : Context) (row : Row) (private : Bool)
    → ctx.master_key ≡ other.master_key
    → extract x ctx row private ≡ extract x other row private
unfolding extract decrypt_master_key master_key_context
extract-master_key x ctx other row private same = rw same
