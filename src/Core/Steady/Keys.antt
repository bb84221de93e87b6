-- ===== src/Core/Steady/Keys.antt =====
-- Reading and writing keys does not panic: internal/dao, internal/lib and jwkExtract.go.
use service_json_keys.Prelude.{ℕ, Bool, true, false, String, arith, Option-cases, inl, inr}
use service_json_keys.Fault.{Error, Result, ok, err, panic, map_error, or_raise, wrap, sentinel}
use service_json_keys.Fault
use service_json_keys.Encoding.{Bytes}
use service_json_keys.Encoding.Base64
use service_json_keys.Types.{Context, Jwk, Row}
use service_json_keys.Externals.{Externals, EcdsaPreset, RsaPreset}
use service_json_keys.World.{query}
use service_json_keys.Dao
use service_json_keys.Dao.{JwkInsertRequest}
use service_json_keys.MasterKey.{encrypt_master_key, decrypt_master_key, master_key_context, unseal}
use service_json_keys.Core.Extract.{extract}
use service_json_keys.Fault.Returned.{is_returned, IsReturned, IsReturned->>=, IsReturned-map_error}
use service_json_keys.Encoding.Base64.Laws.{decode-IsReturned}
use service_json_keys.Core.Steady.{Steady}

-- The outside calls return a value or an error.
pub record IsCalm (x : Externals) : Type 0 where
  pub marshal : (k : Jwk) → IsReturned (x.marshal k)
  pub unmarshal : (text : Bytes) → IsReturned (x.unmarshal text)
  pub parse_uuid : (text : String) → IsReturned (x.parse_uuid text)
  pub generate_ed25519 : (n : ℕ) → IsReturned (x.generate_ed25519 n)
  pub generate_ecdsa : (preset : EcdsaPreset) (n : ℕ) → IsReturned (x.generate_ecdsa preset n)
  pub generate_rsa : (preset : RsaPreset) (n : ℕ) → IsReturned (x.generate_rsa preset n)
  pub nonce : (n : ℕ) → IsReturned (x.nonce n)

module _ (x : Externals) (ctx : Context) (calm : IsCalm x) where
  pub decrypt-IsReturned : (bytes : Bytes) → IsReturned (decrypt_master_key x ctx bytes)
  unfolding decrypt_master_key master_key_context is_returned
  decrypt-IsReturned bytes =
      IsReturned->>= (map_error (wrap "get master key") (master_key_context ctx))
        (λ secret.
          Fault.◌>>=◌ (unseal x secret bytes)
            λ decrypted. map_error (wrap "unmarshal data") (x.unmarshal decrypted))
        (ground arith)
        λ secret.
          IsReturned->>= (unseal x secret bytes)
            (λ decrypted. map_error (wrap "unmarshal data") (x.unmarshal decrypted)) (ground arith)
            λ decrypted.
              IsReturned-map_error (wrap "unmarshal data") (x.unmarshal decrypted)
                (calm.unmarshal decrypted)

  read-IsReturned :
      (text : Bytes)
      → IsReturned (
          Fault.◌>>=◌
            (map_error (wrap "decode request.Jwk") (Base64.decode text))
            λ decoded. map_error (wrap "deserialize request.Jwk") (x.unmarshal decoded))
  read-IsReturned text =
      IsReturned->>= (map_error (wrap "decode request.Jwk") (Base64.decode text))
        (λ decoded. map_error (wrap "deserialize request.Jwk") (x.unmarshal decoded))
        (IsReturned-map_error (wrap "decode request.Jwk") (Base64.decode text)
          (decode-IsReturned text))
        λ decoded.
          IsReturned-map_error (wrap "deserialize request.Jwk") (x.unmarshal decoded)
            (calm.unmarshal decoded)

  pub extract-IsReturned : (row : Row) (private : Bool) → IsReturned (extract x ctx row private)
  unfolding extract is_returned
  extract-IsReturned row true =
      IsReturned->>= (map_error (wrap "decode request.Jwk") (Base64.decode row.private_key))
        (λ decoded. map_error (wrap "deserialize request.Jwk") (decrypt_master_key x ctx decoded))
        (IsReturned-map_error (wrap "decode request.Jwk") (Base64.decode row.private_key)
          (decode-IsReturned row.private_key))
        λ decoded.
          IsReturned-map_error (wrap "deserialize request.Jwk") (decrypt_master_key x ctx decoded)
            (decrypt-IsReturned decoded)
  extract-IsReturned row false = elim (Option-cases row.public_key) [
    | inl e ↦ ground arith
    | inr (text, e) ↦ rw (e, extract) (read-IsReturned text)
  ]

  pub search-Steady : (usage : String) → Steady (Dao.search x ctx usage)
  unfolding Dao.search query is_returned
  search-Steady usage = record { returns = λ w. ground arith }

  pub insert-Steady : (request : JwkInsertRequest) → Steady (Dao.insert x ctx request)
  unfolding Dao.insert query is_returned
  insert-Steady request = record { returns = λ w. ground arith }

  pub encrypt-Steady : (k : Jwk) → Steady (encrypt_master_key x ctx k)
  unfolding encrypt_master_key is_returned
  encrypt-Steady k = record { returns = λ w. ground (arith, calm.marshal k, calm.nonce w.step) }
