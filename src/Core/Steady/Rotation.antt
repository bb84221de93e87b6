-- ===== src/Core/Steady/Rotation.antt =====
-- Generating keys, and rotating all usages, does not panic: jwkPresets.go, jwkGen.go and
-- jwkRotateAll.go. The index into an empty list of keys is never reached.
use service_json_keys.Prelude.{
  ℕ, ◌+◌, ◌≤◌, ◌≡◌, ◌≢◌, refl, subst, true, Option, none, some, List, [], ◌∷◌, String, arith,
  if◌then◌else◌, All, str_eq, Bool-cases, Option-cases, inl, inr,
}
use service_json_keys.Prelude.Int.{leb_ℤ}
use service_json_keys.Fault.{
  Error, Result, ok, err, panic, map_error, or_raise, or_raise-eq-ok, wrap, sentinel,
  jwk_gen_unknown_key_usage, config_not_found,
}
use service_json_keys.Fault
use service_json_keys.Fault.Returned.{
  is_returned, IsReturned, IsReturned->>=, IsReturned-map_error, IsReturned-or_raise, IsReturned-≢,
}
use service_json_keys.Encoding.Base64
use service_json_keys.Clock.{zero_time, sub, sub-zero, max_int64, IsDuration}
use service_json_keys.Types.{Context, Jwk, Row}
use service_json_keys.Externals.{Externals}
use service_json_keys.Config.{Alg, JwkConfig, KeysConfig, lookup}
use service_json_keys.World.{World}
use service_json_keys.Core.Presets.Laws.{generators_cases}
use service_json_keys.Core.Presets.{
  jwk_presets_ecdsa, jwk_presets_rsa, JwkGenAny, jwk_generators, jwk_generator_ed25519,
  jwk_generator_es, jwk_generator_rsa,
}
use service_json_keys.Core.Gen.{gen, generate, first_key, last_created, encode_public}
use service_json_keys.Core.RotateAll.{rotate_usages}
use service_json_keys.Core.Steady.{
  Steady, Steady->>=, Steady-lift->>=, Steady-read->>=, Steady-lift, Steady-on_error,
}
use service_json_keys.Core.Steady.Keys.{
  IsCalm, extract-IsReturned, search-Steady, insert-Steady, encrypt-Steady,
}

module _ (x : Externals) (calm : IsCalm x) where
  ed25519-Steady : Steady (jwk_generator_ed25519 x)
  unfolding jwk_generator_ed25519 is_returned
  ed25519-Steady = record { returns = λ w. ground (arith, calm.generate_ed25519 w.step) }

  es-Steady : (alg : Alg) → Steady (jwk_generator_es x alg)
  unfolding jwk_generator_es is_returned
  es-Steady alg = record {
    returns = λ w. elim (Option-cases (jwk_presets_ecdsa alg)) [
      | inl e ↦ ground arith
      | inr (preset, e) ↦ ground (arith, calm.generate_ecdsa preset w.step)
    ];
  }

  rsa-Steady : (alg : Alg) → Steady (jwk_generator_rsa x alg)
  unfolding jwk_generator_rsa is_returned
  rsa-Steady alg = record {
    returns = λ w. elim (Option-cases (jwk_presets_rsa alg)) [
      | inl e ↦ ground arith
      | inr (preset, e) ↦ ground (arith, calm.generate_rsa preset w.step)
    ];
  }

  generator-Steady : (alg : Alg) (g : JwkGenAny) → jwk_generators x alg ≡ some g → Steady g
  generator-Steady = generators_cases x Steady ed25519-Steady es-Steady rsa-Steady

  encode_public-IsReturned : (key : Option Jwk) → IsReturned (encode_public x key)
  unfolding is_returned
  encode_public-IsReturned none = refl
  encode_public-IsReturned (some key) =
      IsReturned-map_error (wrap "serialize public key")
        (Fault.◌>>=◌ (x.marshal key) λ text. ok (some (Base64.encode text)))
        (IsReturned->>= (x.marshal key) (λ text. ok (some (Base64.encode text))) (calm.marshal key)
          λ text. refl)

module _ (x : Externals) (ctx : Context) (calm : IsCalm x) where
  generate-Steady :
      (key_config : JwkConfig) (usage : String) → Steady (generate x ctx key_config usage)
  unfolding generate
  generate-Steady key_config usage =
      Steady-lift->>=
        (IsReturned-or_raise (wrap usage (sentinel jwk_gen_unknown_key_usage))
          (jwk_generators x key_config.alg))
        λ key_generator known.
          Steady->>=
            (Steady-on_error (wrap "generate key") (
              generator-Steady x calm key_config.alg key_generator (
                or_raise-eq-ok (wrap usage (sentinel jwk_gen_unknown_key_usage))
                  (jwk_generators x key_config.alg) known)))
            λ generated.
              Steady->>=
                (Steady-on_error (wrap "encrypt private key")
                  (encrypt-Steady x ctx calm generated.private_key))
                λ private_key_encrypted.
                  Steady-lift->>=
                    (IsReturned-map_error (wrap "parse KID") (x.parse_uuid generated.private_kid)
                      (calm.parse_uuid generated.private_kid))
                    λ kid parsed.
                      Steady-lift->>= (encode_public-IsReturned x calm generated.public_key)
                        λ public_key_encoded encoded.
                          Steady-read->>= x.now _
                            λ n. Steady-on_error (wrap "insert key") (insert-Steady x ctx calm _)

  -- Without a key, the time since the zero instant is the greatest duration, and a key is
  -- generated.
  choose-Steady :
      (key_config : JwkConfig) (usage : String) (keys : List Row) (n : ℕ)
      → IsDuration key_config.key.rotation
      → max_int64 ≤ x.now n
      → Steady (
          if leb_ℤ key_config.key.rotation (sub (x.now n) (last_created keys))
          then generate x ctx key_config usage
          else first_key keys)
  unfolding last_created
  choose-Steady key_config usage [] n short late =
      let due : leb_ℤ key_config.key.rotation (sub (x.now n) zero_time) ≡ true =
        rw (sub-zero (x.now n) late) (ground arith) in
      rw due (generate-Steady key_config usage)
  choose-Steady key_config usage (key ∷ keys) n short late =
      elim (Bool-cases (leb_ℤ key_config.key.rotation (sub (x.now n) key.created_at))) [
        | inl e ↦ rw e (generate-Steady key_config usage)
        | inr e ↦ rw e (Steady-lift (unfold is_returned in refl))
      ]

  gen-Steady :
      (keys_config : KeysConfig) (usage : String)
      → ((key_config : JwkConfig)
          → lookup usage keys_config ≡ some key_config
          → IsDuration key_config.key.rotation)
      → ((n : ℕ) → max_int64 ≤ x.now n)
      → Steady (gen x ctx keys_config usage)
  unfolding gen
  gen-Steady keys_config usage short late =
      Steady->>= (Steady-on_error (wrap "list keys") (search-Steady x ctx calm usage)) λ keys.
        Steady-lift->>= (IsReturned-or_raise (sentinel config_not_found) (lookup usage keys_config))
          λ key_config known. Steady-read->>= x.now _ λ n.
            Steady->>=
              (choose-Steady key_config usage keys n
                (short key_config
                  (or_raise-eq-ok (sentinel config_not_found) (lookup usage keys_config) known))
                (late n))
              λ latest_key. Steady-lift (extract-IsReturned x ctx calm latest_key true)

All-lookup :
    (P : JwkConfig → Type 0) (usage : String) (entries : KeysConfig) (key_config : JwkConfig)
    → All (λ e. P e.1) entries
    → lookup usage entries ≡ some key_config
    → P key_config
unfolding lookup
All-lookup P usage [] key_config h e = cc
All-lookup P usage ((key, k) ∷ rest) key_config (p, h) e = elim (Bool-cases (str_eq key usage)) [
  | inl t ↦ let same : k ≡ key_config = cc (rw t at e) in subst P same p
  | inr t ↦ All-lookup P usage rest key_config h (rw t at e)
]

module _ (x : Externals) (ctx : Context) (calm : IsCalm x) (keys_config : KeysConfig)
    (short : All (λ e. IsDuration e.1.key.rotation) keys_config)
    (late : (n : ℕ) → max_int64 ≤ x.now n) where
  rotate_usages-Steady :
      (entries : List (String × JwkConfig)) (processed : ℕ)
      → Steady (rotate_usages x keys_config entries processed ctx)
  unfolding rotate_usages is_returned
  rotate_usages-Steady [] processed = record { returns = λ w. refl }
  rotate_usages-Steady ((usage, key_config) ∷ rest) processed =
      Steady->>=
        (Steady-on_error (wrap usage) (
          gen-Steady x ctx calm keys_config usage
            (λ k. All-lookup (λ k. IsDuration k.key.rotation) usage keys_config k short) late))
        λ key. rotate_usages-Steady rest (processed + 1)

-- When the outside calls return values or errors, every rotation interval is an int64, and the
-- clock is past year 292, neither the generation of a key nor the loop of a rotation over the
-- usages panics: they give a value or an error.
pub rotation_returns :
    (x : Externals) (ctx : Context) (keys_config : KeysConfig) (usage : String) (w : World)
    → IsCalm x
    → All (λ e. IsDuration e.1.key.rotation) keys_config
    → ((n : ℕ) → max_int64 ≤ x.now n)
    → ((gen x ctx keys_config usage w).0 ≢ panic)
      × ((rotate_usages x keys_config keys_config 0 ctx w).0 ≢ panic)
rotation_returns x ctx keys_config usage w calm short late = (
  IsReturned-≢ (gen x ctx keys_config usage w).0 (
      (gen-Steady x ctx calm keys_config usage
          (λ k. All-lookup (λ k. IsDuration k.key.rotation) usage keys_config k short) late).returns
        w),
  IsReturned-≢ (rotate_usages x keys_config keys_config 0 ctx w).0
      ((rotate_usages-Steady x ctx calm keys_config short late keys_config 0).returns w),
)
