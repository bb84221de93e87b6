-- ===== src/MasterKey/Laws.antt =====
-- The master key that a context comes to hold, and decryption after encryption.
use service_json_keys.Prelude.{
  ◌≤◌, ◌<◌, ◌≡◌, ◌≢◌, refl, subst, inl, inr, true, some, ◌++◌, arith, length, take, drop,
  length-append, take-append, drop-append, Option-cases, All-append,
}
use service_json_keys.Fault.{
  Error, ok, err, errors_is, map_error, map_error-eq-ok, Result-cases, sentinel, wrap,
  invalid_master_key, >>=-eq-ok,
}
use service_json_keys.Encoding.{Bytes, IsBytes}
use service_json_keys.Encoding.Hex
use service_json_keys.Encoding.Hex.Laws
use service_json_keys.Types.{Context, Jwk}
use service_json_keys.Externals.{Externals, IsSecretbox, IsJson, IsRandom}
use service_json_keys.World.{World}
use service_json_keys.MasterKey.{
  new_master_key_context, check_length, master_key_context, transfer_master_key_context,
  encrypt_master_key, decrypt_master_key, master_key_length, nonce_length,
}

-- A master key that is accepted has 64 hexadecimal digits; the context then gives the 32 bytes that
-- they stand for, keeps its database, and hands the key to a context that it is transferred to.
pub new_master_key_context_sound :
    (ctx ctx' dest : Context) (raw : Bytes)
    → new_master_key_context ctx raw ≡ ok ctx'
    → (key : Bytes) × (Hex.decode raw ≡ ok key)
      × (length raw ≡ 64)
      × (length key ≡ master_key_length)
      × (master_key_context ctx' ≡ ok key)
      × (ctx'.postgres ≡ ctx.postgres)
      × (master_key_context (transfer_master_key_context ctx' dest) ≡ ok key)
      × ((transfer_master_key_context ctx' dest).postgres ≡ dest.postgres)
unfolding new_master_key_context master_key_context transfer_master_key_context
new_master_key_context_sound ctx ctx' dest raw h =
    let (key, read, checked) =
      >>=-eq-ok (map_error (wrap "decode master key") (Hex.decode raw)) (check_length ctx) h in
    let decoded = map_error-eq-ok (wrap "decode master key") (Hex.decode raw) read in
    let digits = Laws.length-decode raw key decoded in
    (
      key,
      decoded,
      ground arith,
      ground arith,
      ground arith,
      ground arith,
      ground arith,
      ground arith,
    )

-- A hexadecimal text of another length than 32 bytes is refused as an invalid master key.
pub refused_master_key :
    (ctx : Context) (raw key : Bytes)
    → Hex.decode raw ≡ ok key
    → length key ≢ master_key_length
    → (e : Error) × (new_master_key_context ctx raw ≡ err e)
      × (errors_is e invalid_master_key ≡ true)
unfolding new_master_key_context
refused_master_key ctx raw key decoded wrong =
    (wrap "expected 32 bytes" (sentinel invalid_master_key), ground (arith, decoded), refl)

-- What an encryption that succeeds has gone through.
module _ (x : Externals) (ctx : Context) (k : Jwk) (w v : World) (sealed : Bytes) where
  pub encrypt-eq-ok :
      encrypt_master_key x ctx k w ≡ (ok sealed, v)
      → (secret serialized nonce : Bytes) × (ctx.master_key ≡ some secret)
        × (x.marshal k ≡ ok serialized)
        × (x.nonce w.step ≡ ok nonce)
        × (sealed ≡ nonce ++ x.seal nonce secret serialized)
        × (v.rows ≡ w.rows)
        × (w.step ≤ v.step)
  unfolding encrypt_master_key
  encrypt-eq-ok h = elim (Option-cases ctx.master_key) [
    | inl e ↦ absurd (ground arith)
    | inr (secret, held) ↦ elim (Result-cases (x.marshal k)) [
      | inr e ↦ absurd (ground arith)
      | inl (serialized, marshalled) ↦ elim (Result-cases (x.nonce w.step)) [
        | inr e ↦ absurd (ground arith)
        | inl (nonce, drawn) ↦ (
          secret,
          serialized,
          nonce,
          held,
          marshalled,
          drawn,
          ground arith,
          ground arith,
          ground arith,
        )
      ]
    ]
  ]

pub encrypt-IsBytes :
    (x : Externals) (ctx : Context) (k : Jwk) (w v : World) (sealed : Bytes)
    → IsSecretbox x
    → IsJson x
    → IsRandom x
    → encrypt_master_key x ctx k w ≡ (ok sealed, v)
    → IsBytes sealed
encrypt-IsBytes x ctx k w v sealed box json random h =
    let (secret, serialized, nonce, _, marshalled, drawn, is, _, _) =
      encrypt-eq-ok x ctx k w v sealed h in
    let valid = json.marshal-IsBytes k serialized marshalled in
    rw is (
      All-append (λ b. b < 256) nonce (x.seal nonce secret serialized)
        (random.nonce-IsBytes w.step nonce drawn) (box.seal-IsBytes nonce secret serialized valid))

take-drop :
    (nonce box : Bytes)
    → length nonce ≡ nonce_length
    → (take nonce_length (nonce ++ box) ≡ nonce) × (drop nonce_length (nonce ++ box) ≡ box)
take-drop nonce box h = (
  subst (λ n. take n (nonce ++ box) ≡ nonce) h (take-append nonce box),
  subst (λ n. drop n (nonce ++ box) ≡ box) h (drop-append nonce box),
)

-- Under the same context, decrypting the outcome of an encryption that succeeded gives back the key
-- that was encrypted.
pub decrypt-encrypt :
    (x : Externals) (ctx : Context) (k : Jwk) (w v : World) (sealed : Bytes)
    → IsSecretbox x
    → IsJson x
    → IsRandom x
    → encrypt_master_key x ctx k w ≡ (ok sealed, v)
    → decrypt_master_key x ctx sealed ≡ ok (some k)
unfolding decrypt_master_key
decrypt-encrypt x ctx k w v sealed box json random h =
    let (secret, serialized, nonce, held, marshalled, drawn, is, _, _) =
      encrypt-eq-ok x ctx k w v sealed h in
    let valid = json.marshal-IsBytes k serialized marshalled in
    let sized = random.length-nonce w.step nonce drawn in
    let (front, back) = take-drop nonce (x.seal nonce secret serialized) sized in
    let long = length-append nonce (x.seal nonce secret serialized) in
    ground (
      arith,
      is,
      front,
      back,
      long,
      box.open-seal nonce secret serialized valid,
      box.length-seal nonce secret serialized valid,
      json.unmarshal-marshal k serialized marshalled,
    )
