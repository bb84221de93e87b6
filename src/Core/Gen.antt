-- ===== src/Core/Gen.antt =====
-- internal/core/jwkGen.go: a new key for a usage, once the newest is as old as the rotation
-- interval.
pub mod Generate
pub mod Rotation
pub mod Runs
pub mod Drawing
pub mod Making
pub mod Progress
use service_json_keys.Prelude.{String, true, Option, none, some, List, [], ◌∷◌, if◌then◌else◌}
use service_json_keys.Prelude.Int.{leb_ℤ}
use service_json_keys.Fault.{
  Result, ok, sentinel, wrap, jwk_gen_unknown_key_usage, config_not_found, map_error, or_raise,
}
use service_json_keys.Fault
use service_json_keys.Encoding.{Bytes}
use service_json_keys.Encoding.Base64
use service_json_keys.Clock.{Time, zero_time, sub, add}
use service_json_keys.Types.{Context, Jwk, Row}
use service_json_keys.Externals.{Externals}
use service_json_keys.Config.{JwkConfig, KeysConfig, lookup}
use service_json_keys.World.{Exec, pure, crash, lift, observe, on_error, ◌>>=◌}
use service_json_keys.Dao
use service_json_keys.MasterKey.{encrypt_master_key}
use service_json_keys.Core.Presets.{jwk_generators}
use service_json_keys.Core.Extract.{extract}

-- `lastCreated`: when the newest key was created, or Go's zero time without a key.
unfoldable pub last_created : List Row → Time
last_created [] = zero_time
last_created (key ∷ keys) = key.created_at

-- `keys[0]`, which panics on an empty slice.
abbrev pub first_key : List Row → Exec Row
first_key [] = crash
first_key (key ∷ keys) = pure key

abbrev pub encode_public : Externals → Option Jwk → Result (Option Bytes)
encode_public x none = ok none
encode_public x (some key) =
    map_error (wrap "serialize public key")
      (Fault.◌>>=◌ (x.marshal key) λ text. ok (some (Base64.encode text)))

abbrev pub now : Externals → Exec Time
now x = observe λ n. ok (x.now n)

-- The branch that generates, encrypts and inserts a key.
unfoldable pub generate : Externals → Context → JwkConfig → String → Exec Row
generate x ctx key_config usage = do
  key_generator ←
      lift (
        or_raise (wrap usage (sentinel jwk_gen_unknown_key_usage))
          (jwk_generators x key_config.alg))
  generated ← on_error (wrap "generate key") key_generator
  private_key_encrypted ←
      on_error (wrap "encrypt private key") (encrypt_master_key x ctx generated.private_key)
  kid ← lift (map_error (wrap "parse KID") (x.parse_uuid generated.private_kid))
  public_key_encoded ← lift (encode_public x generated.public_key)
  created ← now x
  on_error (wrap "insert key") (
      Dao.insert x ctx (record {
        id = kid;
        private_key = Base64.encode private_key_encrypted;
        public_key = public_key_encoded;
        usage = usage;
        now = created;
        expiration = add created key_config.key.ttl;
      }))

-- JwkGen.Exec
unfoldable pub gen : Externals → Context → KeysConfig → String → Exec (Option Jwk)
gen x ctx keys_config usage = do
  keys ← on_error (wrap "list keys") (Dao.search x ctx usage)
  key_config ← lift (or_raise (sentinel config_not_found) (lookup usage keys_config))
  checked ← now x
  latest_key ←
      if leb_ℤ key_config.key.rotation (sub checked (last_created keys))
      then generate x ctx key_config usage
      else first_key keys
  lift (extract x ctx latest_key true)
