-- ===== src/Core/Sources/Wiring.antt =====
-- Which plugins the wiring gives a usage.
use service_json_keys.Prelude.{
  String, ◌≡◌, refl, ap, ◌∙◌, inl, inr, Option, none, some, List, [], ◌∷◌, arith, All, All-append,
  str_eq, eq_iff, subst, Bool-cases,
}
use service_json_keys.Fault.{ok, sentinel, wrap, jwk_preset_unknown, or_raise, ◌>>=◌}
use service_json_keys.Config.{
  Alg, ed_dsa, es256, es384, es512, rs256, rs384, rs512, ps256, ps384, ps512, other_alg, JwkConfig,
  KeysConfig, lookup,
}
use service_json_keys.Externals.{EcdsaPreset, RsaPreset}
use service_json_keys.Core.Sources.{
  Source, Sources, eddsa_family, es_family, rsa_family, family, build, no_sources,
  new_jwk_private_source, new_jwk_public_source, private_source, public_source, Role, signer,
  verifier, Plugin, ed25519, ecdsa, rsa, Plugins, plugins_of, add_plugin, wire_eddsa, wire_es,
  wire_rsa, wire, new_jwk_producers, new_jwk_recipients, jws_presets_ecdsa, jws_presets_rsa, follow,
}
use service_json_keys.Core.Sources.Building.{IsMap, IsSupported, IsSource, build-IsBuilt}

-- The preset that a plugin is given for an algorithm, and the plugin.
abbrev pub plugin_for : Role → Source → Alg → Option Plugin
plugin_for role source ed_dsa = some (ed25519 role source)
plugin_for role source es256 = some (ecdsa role source (some EcdsaPreset.es256))
plugin_for role source es384 = some (ecdsa role source (some EcdsaPreset.es384))
plugin_for role source es512 = some (ecdsa role source (some EcdsaPreset.es512))
plugin_for role source rs256 = some (rsa role source RsaPreset.rs256)
plugin_for role source rs384 = some (rsa role source RsaPreset.rs384)
plugin_for role source rs512 = some (rsa role source RsaPreset.rs512)
plugin_for role source ps256 = some (rsa role source RsaPreset.ps256)
plugin_for role source ps384 = some (rsa role source RsaPreset.ps384)
plugin_for role source ps512 = some (rsa role source RsaPreset.ps512)
plugin_for role source (other_alg name) = none

eddsa-plugin :
    (role : Role) (source : Source) (alg : Alg)
    → family alg ≡ some eddsa_family
    → plugin_for role source alg ≡ some (ed25519 role source)
unfolding family
eddsa-plugin role source alg h = ground arith

es-preset :
    (role : Role) (source : Source) (alg : Alg)
    → family alg ≡ some es_family
    → plugin_for role source alg ≡ some (ecdsa role source (jws_presets_ecdsa alg))
unfolding family jws_presets_ecdsa
es-preset role source alg h = ground arith

rsa-preset :
    (role : Role) (source : Source) (alg : Alg)
    → family alg ≡ some rsa_family
    → (preset : RsaPreset) × (jws_presets_rsa alg ≡ some preset)
      × (plugin_for role source alg ≡ some (rsa role source preset))
unfolding family jws_presets_rsa
rsa-preset role source rs256 h = (RsaPreset.rs256, refl, refl)
rsa-preset role source rs384 h = (RsaPreset.rs384, refl, refl)
rsa-preset role source rs512 h = (RsaPreset.rs512, refl, refl)
rsa-preset role source ps256 h = (RsaPreset.ps256, refl, refl)
rsa-preset role source ps384 h = (RsaPreset.ps384, refl, refl)
rsa-preset role source ps512 h = (RsaPreset.ps512, refl, refl)
rsa-preset role source ed_dsa h = absurd cc
rsa-preset role source es256 h = absurd cc
rsa-preset role source es384 h = absurd cc
rsa-preset role source es512 h = absurd cc
rsa-preset role source (other_alg name) h = absurd cc

module _ (role : Role) (make : String → JwkConfig → Source) (keys : KeysConfig) where
  -- A plugin of a usage: that of the usage's algorithm, over the usage's own source.
  abbrev pub Fits : String → Plugin → Type 0
  Fits usage plugin =
      (k : JwkConfig) × (lookup usage keys ≡ some k)
      × (plugin_for role (make usage k) k.alg ≡ some plugin)

  abbrev pub IsWired : Plugins → Type 0
  IsWired output = All (λ entry. All (Fits entry.0) entry.1) output

  plugins_of-Fits :
      (usage : String) (output : Plugins)
      → IsWired output
      → All (Fits usage) (plugins_of (lookup usage output))
  unfolding lookup
  plugins_of-Fits usage [] h = tt
  plugins_of-Fits usage ((key, plugins) ∷ output) (fits, h) = elim (Bool-cases (str_eq key usage)) [
    | inl e ↦ rw e (subst (λ u. All (Fits u) plugins) ((eq_iff key usage).0 e) fits)
    | inr e ↦ rw e (plugins_of-Fits usage output h)
  ]

  add_plugin-IsWired :
      (usage : String) (plugin : Plugin) (output : Plugins)
      → Fits usage plugin
      → IsWired output
      → IsWired (add_plugin usage plugin output)
  add_plugin-IsWired usage plugin output fits h = (
    All-append (Fits usage) (plugins_of (lookup usage output)) (plugin ∷ [])
        (plugins_of-Fits usage output h) (fits, tt),
    h,
  )

  wire_eddsa-IsWired :
      (sources : List (String × Source)) (output : Plugins)
      → All (IsSource make keys eddsa_family) sources
      → IsWired output
      → IsWired (wire_eddsa role keys sources output)
  unfolding wire_eddsa
  wire_eddsa-IsWired [] output h wired = wired
  wire_eddsa-IsWired ((usage, source) ∷ rest) output ((k, configured, known, is), h) wired =
      let fits : plugin_for role (make usage k) k.alg ≡ some (ed25519 role source) =
        rw (← is) (eddsa-plugin role source k.alg known) in
      wire_eddsa-IsWired rest ((usage, ed25519 role source ∷ []) ∷ output) h
        (((k, configured, fits), tt), wired)

  wire_es-IsWired :
      (sources : List (String × Source)) (output : Plugins)
      → All (IsSource make keys es_family) sources
      → IsWired output
      → (all : Plugins) × (wire_es role keys sources output ≡ ok all) × IsWired all
  unfolding wire_es
  wire_es-IsWired [] output h wired = (output, refl, wired)
  wire_es-IsWired ((usage, source) ∷ rest) output ((k, configured, known, is), h) wired =
      let plugin = ecdsa role source (jws_presets_ecdsa k.alg) in
      let fits : plugin_for role (make usage k) k.alg ≡ some plugin =
        rw (← is) (es-preset role source k.alg known) in
      let (all, made, fine) =
        wire_es-IsWired rest (add_plugin usage plugin output) h
          (add_plugin-IsWired usage plugin output (k, configured, fits) wired) in
      (
        all,
        ap
              (λ o. follow o >>= λ key_config.
                wire_es role keys rest
                  (add_plugin usage (ecdsa role source (jws_presets_ecdsa key_config.alg)) output))
              configured
            ∙ made,
        fine,
      )

  wire_rsa-IsWired :
      (sources : List (String × Source)) (output : Plugins)
      → All (IsSource make keys rsa_family) sources
      → IsWired output
      → (all : Plugins) × (wire_rsa role keys sources output ≡ ok all) × IsWired all
  unfolding wire_rsa
  wire_rsa-IsWired [] output h wired = (output, refl, wired)
  wire_rsa-IsWired ((usage, source) ∷ rest) output ((k, configured, known, is), h) wired =
      let (preset, found, made_for) = rsa-preset role source k.alg known in
      let fits : plugin_for role (make usage k) k.alg ≡ some (rsa role source preset) =
        rw (← is) made_for in
      let (all, made, fine) =
        wire_rsa-IsWired rest (add_plugin usage (rsa role source preset) output) h
          (add_plugin-IsWired usage (rsa role source preset) output (k, configured, fits) wired) in
      (
        all,
        ap
              (λ o. follow o >>= λ key_config.
                or_raise (wrap usage (sentinel jwk_preset_unknown)) (jws_presets_rsa key_config.alg)
                >>= λ rsa_preset.
                    wire_rsa role keys rest (add_plugin usage (rsa role source rsa_preset) output))
              configured
            ∙ ap
                (λ o. or_raise (wrap usage (sentinel jwk_preset_unknown)) o >>= λ rsa_preset.
                  wire_rsa role keys rest (add_plugin usage (rsa role source rsa_preset) output))
                found
            ∙ made,
        fine,
      )

  -- From supported sources, the loops of the wiring run to their end.
  pub wire-IsWired :
      IsMap keys
      → IsSupported keys
      → (sources : Sources) × (all : Plugins) × (build make keys no_sources ≡ ok sources)
        × (wire role sources keys ≡ ok all)
        × IsWired all
  wire-IsWired map supported =
      let (sources, built, valid) =
        build-IsBuilt make keys keys no_sources map supported
          (record { eddsa = tt; es = tt; rsa = tt }) in
      let eddsa_wired = wire_eddsa-IsWired sources.eddsa [] valid.eddsa tt in
      let (middle, es_runs, es_wired) =
        wire_es-IsWired sources.es (wire_eddsa role keys sources.eddsa []) valid.es eddsa_wired in
      let (all, rsa_runs, wired) = wire_rsa-IsWired sources.rsa middle valid.rsa es_wired in
      (sources, all, built, rw es_runs rsa_runs, wired)

pub plugins-IsWired :
    (keys : KeysConfig)
    → IsMap keys
    → IsSupported keys
    → ((sources : Sources) × (producers : Plugins) × (new_jwk_private_source keys ≡ ok sources)
        × (new_jwk_producers sources keys ≡ ok producers)
        × IsWired signer private_source keys producers)
      × ((sources : Sources) × (recipients : Plugins) × (new_jwk_public_source keys ≡ ok sources)
          × (new_jwk_recipients sources keys ≡ ok recipients)
          × IsWired verifier public_source keys recipients)
unfolding new_jwk_private_source new_jwk_public_source new_jwk_producers new_jwk_recipients
plugins-IsWired keys map supported = (
  wire-IsWired signer private_source keys map supported,
  wire-IsWired verifier public_source keys map supported,
)
