-- ===== src/Core/Sources/Equipped.antt =====
-- The plugins of every configured usage: those it has, and that it has some.
use service_json_keys.Prelude.{String, ◌≡◌, All, All-imp}
use service_json_keys.Fault.{ok}
use service_json_keys.Config.{JwkConfig, KeysConfig}
use service_json_keys.Core.Sources.{
  Source, Sources, Role, signer, verifier, Plugins, private_source, public_source,
  new_jwk_private_source, new_jwk_public_source, new_jwk_producers, new_jwk_recipients,
}
use service_json_keys.Core.Sources.Building.{IsMap, IsSupported}
use service_json_keys.Core.Sources.Wiring.{IsWired, plugins-IsWired}
use service_json_keys.Core.Sources.Complete.{HasPlugin, producers_complete, recipients_complete}

-- Every plugin of a usage is the one of its algorithm, over the usage's own source, and every
-- configured usage has one.
abbrev pub IsEquipped : Role → (String → JwkConfig → Source) → KeysConfig → Plugins → Type 0
IsEquipped role make keys output =
    IsWired role make keys output × All (λ entry. HasPlugin entry.0 output) keys

pub plugins_sound :
    (keys : KeysConfig)
    → IsMap keys
    → IsSupported keys
    → ((sources : Sources) × (producers : Plugins) × (new_jwk_private_source keys ≡ ok sources)
        × (new_jwk_producers sources keys ≡ ok producers)
        × IsEquipped signer private_source keys producers)
      × ((sources : Sources) × (recipients : Plugins) × (new_jwk_public_source keys ≡ ok sources)
          × (new_jwk_recipients sources keys ≡ ok recipients)
          × IsEquipped verifier public_source keys recipients)
plugins_sound keys map supported =
    let ((sources, producers, built, made, wired), (public, recipients, built', made', wired')) =
      plugins-IsWired keys map supported in
    (
      (
        sources,
        producers,
        built,
        made,
        (
          wired,
          All-imp (λ e here. producers_complete keys e.0 sources producers built made (e.1, here))
              keys map,
        ),
      ),
      (
        public,
        recipients,
        built',
        made',
        (
          wired',
          All-imp
              (λ e here. recipients_complete keys e.0 public recipients built' made' (e.1, here))
              keys map,
        ),
      ),
    )
