-- ===== src/Core/Sources/Bundled.antt =====
-- The plugins of the bundled configuration: both of its usages sign with Ed25519.
use service_json_keys.Prelude.{
  String, ◌≡◌, refl, inl, inr, some, [], ◌∷◌, Bool-cases, str_eq, eq_iff,
}
use service_json_keys.Fault.{ok}
use service_json_keys.Config.{JwkConfig, auth, auth_refresh, jwk_preset_default, lookup}
use service_json_keys.Core.Sources.{
  Source, Sources, Plugins, Role, signer, verifier, ed25519, no_sources, private_source,
  public_source, build, family, wire, wire_eddsa, wire_es, wire_rsa, new_jwk_private_source,
  new_jwk_public_source, new_jwk_producers, new_jwk_recipients,
}

module _ (role : Role) (make : String → JwkConfig → Source) where
  -- What the wiring of the bundled configuration gives for each kind of source.
  wired :
      (sources : Sources) × (all : Plugins) × (build make jwk_preset_default no_sources
        ≡ ok sources)
      × (wire role sources jwk_preset_default ≡ ok all)
      × ((usage : String) (k : JwkConfig)
          → lookup usage jwk_preset_default ≡ some k
          → lookup usage all ≡ some (ed25519 role (make usage k) ∷ []))
  unfolding build family wire_eddsa wire_es wire_rsa lookup
  wired = (
    _,
    _,
    refl,
    refl,
    λ usage k configured. elim (Bool-cases (str_eq "auth" usage)) [
      | inl e ↦
          let found : auth ≡ k = cc (rw e at configured) in
          rw (e, found, (eq_iff "auth" usage).0 e) refl
      | inr e ↦ elim (Bool-cases (str_eq "auth-refresh" usage)) [
        | inl e1 ↦
            let found : auth_refresh ≡ k = cc (rw (e, e1) at configured) in
            rw (e, e1, found, (eq_iff "auth-refresh" usage).0 e1) refl
        | inr e1 ↦ absurd (cc (rw (e, e1) at configured))
      ]
    ],
  )

-- The service's sources are built, and the signers made from them: each usage of the bundled
-- configuration has one, for Ed25519, over the source of its own private keys.
pub bundled_producers :
    (usage : String) (k : JwkConfig)
    → lookup usage jwk_preset_default ≡ some k
    → (sources : Sources) × (producers : Plugins) × (new_jwk_private_source jwk_preset_default
        ≡ ok sources)
      × (new_jwk_producers sources jwk_preset_default ≡ ok producers)
      × (lookup usage producers ≡ some (ed25519 signer (private_source usage k) ∷ []))
unfolding new_jwk_private_source new_jwk_producers
bundled_producers usage k configured =
    let (sources, producers, built, made, found) = wired signer private_source in
    (sources, producers, built, made, found usage k configured)

-- And so are a client's, with the verifiers.
pub bundled_recipients :
    (usage : String) (k : JwkConfig)
    → lookup usage jwk_preset_default ≡ some k
    → (sources : Sources) × (recipients : Plugins) × (new_jwk_public_source jwk_preset_default
        ≡ ok sources)
      × (new_jwk_recipients sources jwk_preset_default ≡ ok recipients)
      × (lookup usage recipients ≡ some (ed25519 verifier (public_source usage k) ∷ []))
unfolding new_jwk_public_source new_jwk_recipients
bundled_recipients usage k configured =
    let (sources, recipients, built, made, found) = wired verifier public_source in
    (sources, recipients, built, made, found usage k configured)
