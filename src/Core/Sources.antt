-- ===== src/Core/Sources.antt =====
-- internal/core/jwkPresets.go: the key sources of the usages, by the family of their algorithm, and
-- the plugins that sign and verify with them. A Go map is a list of entries, in which an insertion
-- puts the newest in front.
pub mod Building
pub mod Wiring
pub mod Bundled
pub mod Complete
pub mod Equipped
use service_json_keys.Prelude.{String, Bool, true, false, Option, none, some, List, [], ◌∷◌, ◌++◌}
use service_json_keys.Fault.{
  Error, Result, ok, err, panic, sentinel, wrap, jwk_preset_unknown, jwk_preset_unknown_algorithm,
  or_raise, ◌>>=◌,
}
use service_json_keys.Prelude.Int.{pos}
use service_json_keys.Clock.{Duration}
use service_json_keys.Types.{Context, Jwk}
use service_json_keys.Config.{
  Alg, ed_dsa, es256, es384, es512, rs256, rs384, rs512, ps256, ps384, ps512, other_alg, JwkConfig,
  KeysConfig, lookup,
}
use service_json_keys.Externals.{EcdsaPreset, RsaPreset}
use service_json_keys.World.{Exec}
use service_json_keys.Core.Presets.{jwk_presets_ecdsa, jwk_presets_rsa}

-- The JWS presets of the library; they have the names of the JWK presets.
-- JwsPresetsEcdsa
unfoldable pub jws_presets_ecdsa : Alg → Option EcdsaPreset
jws_presets_ecdsa es256 = some EcdsaPreset.es256
jws_presets_ecdsa es384 = some EcdsaPreset.es384
jws_presets_ecdsa es512 = some EcdsaPreset.es512
jws_presets_ecdsa _ = none

-- JwsPresetsRsa
unfoldable pub jws_presets_rsa : Alg → Option RsaPreset
jws_presets_rsa rs256 = some RsaPreset.rs256
jws_presets_rsa rs384 = some RsaPreset.rs384
jws_presets_rsa rs512 = some RsaPreset.rs512
jws_presets_rsa ps256 = some RsaPreset.ps256
jws_presets_rsa ps384 = some RsaPreset.ps384
jws_presets_rsa ps512 = some RsaPreset.ps512
jws_presets_rsa _ = none

-- jwk.Source, by the configuration that jwk.NewSource is given.
pub record Source : Type 0 where
  pub usage : String
  pub cache_duration : Duration
  pub refresh_on_unknown_key_id : Bool
  pub unknown_key_id_interval : Duration

-- JwkPrivateSources and JwkPublicSources, which have the same fields.
pub record Sources : Type 0 where
  pub eddsa : List (String × Source)
  pub es : List (String × Source)
  pub rsa : List (String × Source)

-- The cases of the switch on the algorithm.
pub data Family : Type 0 where
  eddsa_family es_family rsa_family : Family

unfoldable pub family : Alg → Option Family
family ed_dsa = some eddsa_family
family es256 = some es_family
family es384 = some es_family
family es512 = some es_family
family rs256 = some rsa_family
family rs384 = some rsa_family
family rs512 = some rsa_family
family ps256 = some rsa_family
family ps384 = some rsa_family
family ps512 = some rsa_family
family (other_alg name) = none

-- The text of an algorithm, in the message of an error.
abbrev pub alg_name : Alg → String
alg_name ed_dsa = "EdDSA"
alg_name es256 = "ES256"
alg_name es384 = "ES384"
alg_name es512 = "ES512"
alg_name rs256 = "RS256"
alg_name rs384 = "RS384"
alg_name rs512 = "RS512"
alg_name ps256 = "PS256"
alg_name ps384 = "PS384"
alg_name ps512 = "PS512"
alg_name (other_alg name) = name

abbrev pub put : Family → String → Source → Sources → Sources
put eddsa_family usage source output = record output { eddsa = (usage, source) ∷ output.eddsa }
put es_family usage source output = record output { es = (usage, source) ∷ output.es }
put rsa_family usage source output = record output { rsa = (usage, source) ∷ output.rsa }

-- The closure `fetch` of a source, over the SearchKeys that the source was built with.
abbrev pub fetch :
    (Context → String → Exec (List (Option Jwk))) → Source → Context → Exec (List (Option Jwk))
fetch search_keys source ctx = search_keys ctx source.usage

abbrev pub private_source : String → JwkConfig → Source
private_source usage key_config = record {
  usage = usage;
  cache_duration = key_config.key.cache;
  refresh_on_unknown_key_id = false;
  unknown_key_id_interval = pos 0;
}

abbrev pub public_source : String → JwkConfig → Source
public_source usage key_config = record {
  usage = usage;
  cache_duration = key_config.key.cache;
  refresh_on_unknown_key_id = true;
  unknown_key_id_interval = key_config.key.unknown_key_id_interval;
}

-- The loop over the configured usages, with the source that it makes for each.
unfoldable pub build :
    (String → JwkConfig → Source) → List (String × JwkConfig) → Sources → Result Sources
build make [] output = ok output
build make ((usage, key_config) ∷ rest) output =
    or_raise (wrap (alg_name key_config.alg) (sentinel jwk_preset_unknown_algorithm))
      (family key_config.alg)
    >>= λ f. build make rest (put f usage (make usage key_config) output)

abbrev pub no_sources : Sources
no_sources = record { eddsa = []; es = []; rsa = [] }

-- NewJwkPrivateSource
unfoldable pub new_jwk_private_source : KeysConfig → Result Sources
new_jwk_private_source keys = build private_source keys no_sources

-- NewJwkPublicSource
unfoldable pub new_jwk_public_source : KeysConfig → Result Sources
new_jwk_public_source keys = build public_source keys no_sources

-- The plugins of the jws package over a source: a Signer, or a Verifier. A missing ECDSA preset is
-- the zero value of its type.
pub data Role : Type 0 where
  signer verifier : Role

pub data Plugin : Type 0 where
  ed25519 : Role → Source → Plugin
  ecdsa : Role → Source → Option EcdsaPreset → Plugin
  rsa : Role → Source → RsaPreset → Plugin

abbrev pub Plugins : Type 0
Plugins = List (String × List Plugin)

-- `keys[usage]`, which is followed: without an entry, this panics.
abbrev pub follow : Option JwkConfig → Result JwkConfig
follow none = panic
follow (some key_config) = ok key_config

abbrev pub config_of : String → KeysConfig → Result JwkConfig
config_of usage keys = follow (lookup usage keys)

abbrev pub plugins_of : Option (List Plugin) → List Plugin
plugins_of none = []
plugins_of (some plugins) = plugins

-- `output[usage] = append(output[usage], plugin)`
abbrev pub add_plugin : String → Plugin → Plugins → Plugins
add_plugin usage plugin output = (usage, plugins_of (lookup usage output) ++ plugin ∷ []) ∷ output

module _ (role : Role) (keys : KeysConfig) where
  -- The three loops of NewJwkProducers and of NewJwkRecipients.
  unfoldable pub wire_eddsa : List (String × Source) → Plugins → Plugins
  wire_eddsa [] output = output
  wire_eddsa ((usage, source) ∷ rest) output =
      wire_eddsa rest ((usage, ed25519 role source ∷ []) ∷ output)

  unfoldable pub wire_es : List (String × Source) → Plugins → Result Plugins
  wire_es [] output = ok output
  wire_es ((usage, source) ∷ rest) output = config_of usage keys >>= λ key_config.
      wire_es rest (add_plugin usage (ecdsa role source (jws_presets_ecdsa key_config.alg)) output)

  unfoldable pub wire_rsa : List (String × Source) → Plugins → Result Plugins
  wire_rsa [] output = ok output
  wire_rsa ((usage, source) ∷ rest) output = config_of usage keys >>= λ key_config.
      or_raise (wrap usage (sentinel jwk_preset_unknown)) (jws_presets_rsa key_config.alg)
      >>= λ rsa_preset. wire_rsa rest (add_plugin usage (rsa role source rsa_preset) output)

abbrev pub wire : Role → Sources → KeysConfig → Result Plugins
wire role sources keys =
    wire_es role keys sources.es (wire_eddsa role keys sources.eddsa [])
    >>= wire_rsa role keys sources.rsa

-- NewJwkProducers
unfoldable pub new_jwk_producers : Sources → KeysConfig → Result Plugins
new_jwk_producers = wire signer

-- NewJwkRecipients
unfoldable pub new_jwk_recipients : Sources → KeysConfig → Result Plugins
new_jwk_recipients = wire verifier
