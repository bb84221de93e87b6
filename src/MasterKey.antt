-- ===== src/MasterKey.antt =====
-- internal/lib: the master key in the context (masterKeyContext.go) and the encryption of what is
-- stored under it (masterKeyCrypt.go).
pub mod Laws
use service_json_keys.Prelude.{
  ℕ, ◌+◌, Option, none, some, ◌++◌, length, take, drop, ltb, not, ◌==◌, if◌then◌else◌,
}
use service_json_keys.Fault.{
  Error, Result, ok, err, sentinel, wrap, invalid_master_key, invalid_secret, invalid_ciphertext,
  map_error, or_raise,
}
use service_json_keys.Fault
use service_json_keys.Encoding.{Bytes}
use service_json_keys.Encoding.Hex
use service_json_keys.Types.{Context, Jwk}
use service_json_keys.Externals.{Externals}
use service_json_keys.World.{Exec, pure, lift, observe, on_error, ◌>>=◌, ◌>>◌}

-- MasterKeyLength
abbrev pub master_key_length : ℕ
master_key_length = 32

-- NonceLength
abbrev pub nonce_length : ℕ
nonce_length = 24

-- secretbox.Overhead
abbrev pub overhead : ℕ
overhead = 16

abbrev check_length : Context → Bytes → Result Context
check_length ctx bytes =
    if length bytes == master_key_length
    then ok (record ctx { master_key = some bytes })
    else err (wrap "expected 32 bytes" (sentinel invalid_master_key))

-- NewMasterKeyContext
unfoldable pub new_master_key_context : Context → Bytes → Result Context
new_master_key_context ctx master_key_raw =
    Fault.◌>>=◌ (map_error (wrap "decode master key") (Hex.decode master_key_raw))
      (check_length ctx)

-- MasterKeyContext
unfoldable pub master_key_context : Context → Result Bytes
master_key_context ctx =
    or_raise (wrap "extract master key" (sentinel invalid_master_key)) ctx.master_key

-- TransferMasterKeyContext
unfoldable pub transfer_master_key_context : Context → Context → Context
transfer_master_key_context base_ctx dest_ctx = elim base_ctx.master_key [
  | none ↦ dest_ctx
  | some master_key ↦ record dest_ctx { master_key = some master_key }
]

-- EncryptMasterKey
unfoldable pub encrypt_master_key : Externals → Context → Jwk → Exec Bytes
unfolding ◌>>=◌ master_key_context
encrypt_master_key x ctx value = do
  secret ← lift (map_error (wrap "get master key") (master_key_context ctx))
  serialized ← lift (map_error (wrap "serialize data") (x.marshal value))
  nonce ← on_error (wrap "generate nonce") (observe x.nonce)
  pure (nonce ++ x.seal nonce secret serialized)

abbrev pub unseal : Externals → Bytes → Bytes → Result Bytes
unseal x secret bytes =
    if ltb (length bytes) (nonce_length + overhead)
    then err (wrap "decrypt data" (sentinel invalid_ciphertext))
    else or_raise (wrap "decrypt data" (sentinel invalid_secret))
        (x.open_box (take nonce_length bytes) secret (drop nonce_length bytes))

-- DecryptMasterKey, at a pointer to a key.
unfoldable pub decrypt_master_key : Externals → Context → Bytes → Result (Option Jwk)
unfolding master_key_context
decrypt_master_key x ctx bytes =
    Fault.◌>>=◌ (map_error (wrap "get master key") (master_key_context ctx)) λ secret.
      Fault.◌>>=◌ (unseal x secret bytes)
        λ decrypted. map_error (wrap "unmarshal data") (x.unmarshal decrypted)
