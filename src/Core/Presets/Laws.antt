-- ===== src/Core/Presets/Laws.antt =====
-- The registry of generators, one case a family.
use service_json_keys.Prelude.{ℕ, ◌≡◌, subst, some, ◌≤◌, ◌<◌, ◌+◌, arith, sym, ap, inl, inr}
use service_json_keys.Fault.{Result, ok, Result-cases}
use service_json_keys.Externals.{Externals, KeyPair, EcdsaPreset, RsaPreset}
use service_json_keys.Config.{
  Alg, ed_dsa, es256, es384, es512, rs256, rs384, rs512, ps256, ps384, ps512, other_alg,
}
use service_json_keys.World.{World, observe, pure, ◌>>=◌}
use service_json_keys.Core.Presets.{
  Generated, of_pair, JwkGenAny, jwk_generators, jwk_generator_ed25519, jwk_generator_es,
  jwk_generator_rsa, jwk_presets_ecdsa, jwk_presets_rsa,
}

some_injective {ℓ} : {A : Type ℓ} {a b : A} → some a ≡ some b → a ≡ b
some_injective h = cc

-- What holds of the generators of all three families holds of every registered one.
pub generators_cases :
    (x : Externals) (P : JwkGenAny → Type 0)
    → P (jwk_generator_ed25519 x)
    → ((alg : Alg) → P (jwk_generator_es x alg))
    → ((alg : Alg) → P (jwk_generator_rsa x alg))
    → (alg : Alg) (g : JwkGenAny) → jwk_generators x alg ≡ some g
    → P g
unfolding jwk_generators
generators_cases x P ed es rsa ed_dsa g h = subst P (some_injective h) ed
generators_cases x P ed es rsa es256 g h = subst P (some_injective h) (es es256)
generators_cases x P ed es rsa es384 g h = subst P (some_injective h) (es es384)
generators_cases x P ed es rsa es512 g h = subst P (some_injective h) (es es512)
generators_cases x P ed es rsa rs256 g h = subst P (some_injective h) (rsa rs256)
generators_cases x P ed es rsa rs384 g h = subst P (some_injective h) (rsa rs384)
generators_cases x P ed es rsa rs512 g h = subst P (some_injective h) (rsa rs512)
generators_cases x P ed es rsa ps256 g h = subst P (some_injective h) (rsa ps256)
generators_cases x P ed es rsa ps384 g h = subst P (some_injective h) (rsa ps384)
generators_cases x P ed es rsa ps512 g h = subst P (some_injective h) (rsa ps512)
generators_cases x P ed es rsa (other_alg name) g h = absurd cc

-- The pair is what the library gives for the algorithm at the call.
abbrev pub IsDrawn : Externals → Alg → ℕ → KeyPair → Type 0
IsDrawn x ed_dsa n pair = x.generate_ed25519 n ≡ ok pair
IsDrawn x es256 n pair = x.generate_ecdsa EcdsaPreset.es256 n ≡ ok pair
IsDrawn x es384 n pair = x.generate_ecdsa EcdsaPreset.es384 n ≡ ok pair
IsDrawn x es512 n pair = x.generate_ecdsa EcdsaPreset.es512 n ≡ ok pair
IsDrawn x rs256 n pair = x.generate_rsa RsaPreset.rs256 n ≡ ok pair
IsDrawn x rs384 n pair = x.generate_rsa RsaPreset.rs384 n ≡ ok pair
IsDrawn x rs512 n pair = x.generate_rsa RsaPreset.rs512 n ≡ ok pair
IsDrawn x ps256 n pair = x.generate_rsa RsaPreset.ps256 n ≡ ok pair
IsDrawn x ps384 n pair = x.generate_rsa RsaPreset.ps384 n ≡ ok pair
IsDrawn x ps512 n pair = x.generate_rsa RsaPreset.ps512 n ≡ ok pair
IsDrawn x (other_alg name) n pair = ⊥

-- What was generated is a pair that the library gave for the algorithm, at a call of the range.
abbrev pub IsFrom : Externals → Alg → ℕ → ℕ → Generated → Type 0
IsFrom x alg from end generated =
    (n : ℕ) × (pair : KeyPair) × (from ≤ n)
    × (n < end)
    × IsDrawn x alg n pair
    × (generated ≡ of_pair pair)

-- The steps that every generator ends with.
abbrev pub draw : (ℕ → Result KeyPair) → JwkGenAny
draw pairs = observe pairs >>= λ pair. pure (of_pair pair)

draw-eq-ok :
    (pairs : ℕ → Result KeyPair) (generated : Generated) (w v : World)
    → draw pairs w ≡ (ok generated, v)
    → (pair : KeyPair) × (pairs w.step ≡ ok pair)
      × (generated ≡ of_pair pair)
      × (v ≡ record w { step = w.step + 1 })
unfolding ◌>>=◌
draw-eq-ok pairs generated w v h = elim (Result-cases (pairs w.step)) [
  | inl (pair, e) ↦ (pair, e, cc, cc)
  | inr e ↦ absurd (ground arith)
]

-- A generator changes no row, and gives what the library gives at the next call.
abbrev IsDrawnBetween : Externals → Alg → Generated → World → World → Type 0
IsDrawnBetween x alg generated w v =
    (v.rows ≡ w.rows) × (w.step ≤ v.step) × IsFrom x alg w.step v.step generated

drawn :
    (x : Externals) (alg : Alg) (pairs : ℕ → Result KeyPair) (g : JwkGenAny) (generated : Generated)
    (w v : World)
    → ((n : ℕ) (pair : KeyPair) → pairs n ≡ ok pair → IsDrawn x alg n pair)
    → some (draw pairs) ≡ some g
    → g w ≡ (ok generated, v)
    → IsDrawnBetween x alg generated w v
drawn x alg pairs g generated w v given same ran =
    let is : draw pairs ≡ g = some_injective same in
    let (pair, e, out, after) = draw-eq-ok pairs generated w v (rw is ran) in
    let stepped : w.step + 1 ≡ v.step = sym (ap (λ u. u.step) after) in
    (
      ap (λ u. u.rows) after,
      omega arith,
      (w.step, pair, omega arith, omega arith, given w.step pair e, out),
    )

pub generator_drawn :
    (x : Externals) (alg : Alg) (g : JwkGenAny) (generated : Generated) (w v : World)
    → jwk_generators x alg ≡ some g
    → g w ≡ (ok generated, v)
    → IsDrawnBetween x alg generated w v
unfolding jwk_generators jwk_generator_ed25519 jwk_generator_es jwk_generator_rsa jwk_presets_ecdsa
    jwk_presets_rsa ◌>>=◌
generator_drawn x ed_dsa g generated w v h ran =
    drawn x ed_dsa x.generate_ed25519 g generated w v (λ n pair e. e) h ran
generator_drawn x es256 g generated w v h ran =
    drawn x es256 (x.generate_ecdsa EcdsaPreset.es256) g generated w v (λ n pair e. e) h ran
generator_drawn x es384 g generated w v h ran =
    drawn x es384 (x.generate_ecdsa EcdsaPreset.es384) g generated w v (λ n pair e. e) h ran
generator_drawn x es512 g generated w v h ran =
    drawn x es512 (x.generate_ecdsa EcdsaPreset.es512) g generated w v (λ n pair e. e) h ran
generator_drawn x rs256 g generated w v h ran =
    drawn x rs256 (x.generate_rsa RsaPreset.rs256) g generated w v (λ n pair e. e) h ran
generator_drawn x rs384 g generated w v h ran =
    drawn x rs384 (x.generate_rsa RsaPreset.rs384) g generated w v (λ n pair e. e) h ran
generator_drawn x rs512 g generated w v h ran =
    drawn x rs512 (x.generate_rsa RsaPreset.rs512) g generated w v (λ n pair e. e) h ran
generator_drawn x ps256 g generated w v h ran =
    drawn x ps256 (x.generate_rsa RsaPreset.ps256) g generated w v (λ n pair e. e) h ran
generator_drawn x ps384 g generated w v h ran =
    drawn x ps384 (x.generate_rsa RsaPreset.ps384) g generated w v (λ n pair e. e) h ran
generator_drawn x ps512 g generated w v h ran =
    drawn x ps512 (x.generate_rsa RsaPreset.ps512) g generated w v (λ n pair e. e) h ran
generator_drawn x (other_alg name) g generated w v h ran = absurd cc
