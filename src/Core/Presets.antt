-- ===== src/Core/Presets.antt =====
-- internal/core/jwkPresets.go: the key generators of the algorithms.
pub mod Laws
use service_json_keys.Prelude.{String, Option, none, some}
use service_json_keys.Fault.{sentinel, wrap, jwk_preset_unknown, or_raise}
use service_json_keys.Types.{Jwk}
use service_json_keys.Config.{
  Alg, ed_dsa, es256, es384, es512, rs256, rs384, rs512, ps256, ps384, ps512, other_alg,
}
use service_json_keys.Externals.{Externals, EcdsaPreset, RsaPreset, KeyPair}
use service_json_keys.World.{Exec, pure, lift, observe, ◌>>=◌}

-- JwkPresetsEcdsa
unfoldable pub jwk_presets_ecdsa : Alg → Option EcdsaPreset
jwk_presets_ecdsa es256 = some EcdsaPreset.es256
jwk_presets_ecdsa es384 = some EcdsaPreset.es384
jwk_presets_ecdsa es512 = some EcdsaPreset.es512
jwk_presets_ecdsa _ = none

-- JwkPresetsRsa
unfoldable pub jwk_presets_rsa : Alg → Option RsaPreset
jwk_presets_rsa rs256 = some RsaPreset.rs256
jwk_presets_rsa rs384 = some RsaPreset.rs384
jwk_presets_rsa rs512 = some RsaPreset.rs512
jwk_presets_rsa ps256 = some RsaPreset.ps256
jwk_presets_rsa ps384 = some RsaPreset.ps384
jwk_presets_rsa ps512 = some RsaPreset.ps512
jwk_presets_rsa _ = none

-- What a JwkGenAny returns. The keys have Go's type `any`; a nil public key is `none`.
pub record Generated : Type 0 where
  pub private_key : Jwk
  pub public_key : Option Jwk
  pub private_kid : String
  pub public_kid : String

abbrev pub JwkGenAny : Type 0
JwkGenAny = Exec Generated

abbrev pub of_pair : KeyPair → Generated
of_pair pair = record {
  private_key = pair.private;
  public_key = some pair.public;
  private_kid = pair.private.kid;
  public_kid = pair.public.kid;
}

module _ (x : Externals) where
  -- JwkGeneratorEd25519
  unfoldable pub jwk_generator_ed25519 : JwkGenAny
  unfolding ◌>>=◌
  jwk_generator_ed25519 = do pair ← observe x.generate_ed25519; pure (of_pair pair)

  -- JwkGeneratorEs
  unfoldable pub jwk_generator_es : Alg → JwkGenAny
  unfolding ◌>>=◌ jwk_presets_ecdsa
  jwk_generator_es alg = do
    preset ← lift (or_raise (wrap "ecdsa" (sentinel jwk_preset_unknown)) (jwk_presets_ecdsa alg))
    pair ← observe (x.generate_ecdsa preset)
    pure (of_pair pair)

  -- JwkGeneratorRsa
  unfoldable pub jwk_generator_rsa : Alg → JwkGenAny
  unfolding ◌>>=◌ jwk_presets_rsa
  jwk_generator_rsa alg = do
    preset ← lift (or_raise (wrap "rsa" (sentinel jwk_preset_unknown)) (jwk_presets_rsa alg))
    pair ← observe (x.generate_rsa preset)
    pure (of_pair pair)

  -- JwkGenerators
  unfoldable pub jwk_generators : Alg → Option JwkGenAny
  jwk_generators ed_dsa = some jwk_generator_ed25519
  jwk_generators es256 = some (jwk_generator_es es256)
  jwk_generators es384 = some (jwk_generator_es es384)
  jwk_generators es512 = some (jwk_generator_es es512)
  jwk_generators rs256 = some (jwk_generator_rsa rs256)
  jwk_generators rs384 = some (jwk_generator_rsa rs384)
  jwk_generators rs512 = some (jwk_generator_rsa rs512)
  jwk_generators ps256 = some (jwk_generator_rsa ps256)
  jwk_generators ps384 = some (jwk_generator_rsa ps384)
  jwk_generators ps512 = some (jwk_generator_rsa ps512)
  jwk_generators (other_alg name) = none
