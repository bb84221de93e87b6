-- ===== src/Sample/Plugins.antt =====
-- The key sources and the plugins of the bundled configuration.
use service_json_keys.Prelude.{◌≡◌, refl, [], ◌∷◌}
use service_json_keys.Fault.{ok}
use service_json_keys.Config.{jwk_preset_default, auth, auth_refresh, lookup}
use service_json_keys.Core.Sources.{
  Sources, Plugins, eddsa_family, family, build, new_jwk_private_source, new_jwk_public_source,
  new_jwk_producers, new_jwk_recipients, private_source, public_source, signer, verifier,
  wire_eddsa, wire_es, wire_rsa, ed25519,
}
use service_json_keys.Core.Sources.Building.{IsMap, IsSupported}
use service_json_keys.Core.Sources.Complete.{HasKey}

pub default-IsMap : IsMap jwk_preset_default
unfolding lookup
default-IsMap = (refl, (refl, tt))

pub default-IsSupported : IsSupported jwk_preset_default
unfolding family
default-IsSupported = ((eddsa_family, refl), ((eddsa_family, refl), tt))

abbrev default_sources : Sources
default_sources = record {
  eddsa =
      ("auth-refresh", private_source "auth-refresh" auth_refresh)
      ∷ ("auth", private_source "auth" auth)
      ∷ [];
  es = [];
  rsa = [];
}

default_built : new_jwk_private_source jwk_preset_default ≡ ok default_sources
unfolding new_jwk_private_source build family
default_built = refl

abbrev default_public : Sources
default_public = record {
  eddsa =
      ("auth-refresh", public_source "auth-refresh" auth_refresh)
      ∷ ("auth", public_source "auth" auth)
      ∷ [];
  es = [];
  rsa = [];
}

default_built_public : new_jwk_public_source jwk_preset_default ≡ ok default_public
unfolding new_jwk_public_source build family
default_built_public = refl

abbrev producers : Plugins
producers =
    ("auth", ed25519 signer (private_source "auth" auth) ∷ [])
    ∷ ("auth-refresh", ed25519 signer (private_source "auth-refresh" auth_refresh) ∷ [])
    ∷ []

abbrev recipients : Plugins
recipients =
    ("auth", ed25519 verifier (public_source "auth" auth) ∷ [])
    ∷ ("auth-refresh", ed25519 verifier (public_source "auth-refresh" auth_refresh) ∷ [])
    ∷ []

default_wired : new_jwk_producers default_sources jwk_preset_default ≡ ok producers
unfolding new_jwk_producers wire_eddsa wire_es wire_rsa
default_wired = refl

default_wired_public : new_jwk_recipients default_public jwk_preset_default ≡ ok recipients
unfolding new_jwk_recipients wire_eddsa wire_es wire_rsa
default_wired_public = refl

auth_configured : HasKey "auth" jwk_preset_default
unfolding lookup
auth_configured = (auth, refl)
