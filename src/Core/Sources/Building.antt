-- ===== src/Core/Sources/Building.antt =====
-- Which configurations the key sources are built from, and what they then hold.
use service_json_keys.Prelude.{String, ◌≡◌, refl, ◌⊎◌, inl, inr, some, [], ◌∷◌, All, Option-cases}
use service_json_keys.Fault.{ok}
use service_json_keys.Config.{JwkConfig, KeysConfig, lookup}
use service_json_keys.Core.Sources.{
  Source, Sources, Family, eddsa_family, es_family, rsa_family, family, put, build, no_sources,
  new_jwk_private_source, new_jwk_public_source, private_source, public_source,
}

-- Every entry is what a read of the map gives for its key.
abbrev pub IsMap : KeysConfig → Type 0
IsMap keys = All (λ entry. lookup entry.0 keys ≡ some entry.1) keys

-- The switch has a case for the algorithm of every entry.
abbrev pub IsSupported : KeysConfig → Type 0
IsSupported keys = All (λ entry. (f : Family) × (family entry.1.alg ≡ some f)) keys

module _ (make : String → JwkConfig → Source) (keys : KeysConfig) where
  -- An entry of the sources of a family: the source of a configured usage of that family.
  abbrev pub IsSource : Family → String × Source → Type 0
  IsSource f entry =
      (k : JwkConfig) × (lookup entry.0 keys ≡ some k)
      × (family k.alg ≡ some f)
      × (entry.1 ≡ make entry.0 k)

  pub record IsBuilt (sources : Sources) : Type 0 where
    pub eddsa : All (IsSource eddsa_family) sources.eddsa
    pub es : All (IsSource es_family) sources.es
    pub rsa : All (IsSource rsa_family) sources.rsa

  put-IsBuilt :
      (f : Family) (usage : String) (k : JwkConfig) (output : Sources)
      → lookup usage keys ≡ some k
      → family k.alg ≡ some f
      → IsBuilt output
      → IsBuilt (put f usage (make usage k) output)
  put-IsBuilt eddsa_family usage k output configured known h = record {
    eddsa = ((k, configured, known, refl), h.eddsa);
    es = h.es;
    rsa = h.rsa;
  }
  put-IsBuilt es_family usage k output configured known h = record {
    eddsa = h.eddsa;
    es = ((k, configured, known, refl), h.es);
    rsa = h.rsa;
  }
  put-IsBuilt rsa_family usage k output configured known h = record {
    eddsa = h.eddsa;
    es = h.es;
    rsa = ((k, configured, known, refl), h.rsa);
  }

  pub build-IsBuilt :
      (rest : KeysConfig) (output : Sources)
      → All (λ entry. lookup entry.0 keys ≡ some entry.1) rest
      → IsSupported rest
      → IsBuilt output
      → (sources : Sources) × (build make rest output ≡ ok sources) × IsBuilt sources
  unfolding build
  build-IsBuilt [] output read known h = (output, refl, h)
  build-IsBuilt ((usage, k) ∷ rest) output (configured, read) ((f, known), supported) h =
      let (sources, made, built) =
        build-IsBuilt rest (put f usage (make usage k) output) read supported
          (put-IsBuilt f usage k output configured known h) in
      (sources, rw known made, built)

build-IsSupported :
    (make : String → JwkConfig → Source) (keys : KeysConfig) (output sources : Sources)
    → build make keys output ≡ ok sources
    → IsSupported keys
unfolding build
build-IsSupported make [] output sources h = tt
build-IsSupported make ((usage, k) ∷ rest) output sources h = elim (Option-cases (family k.alg)) [
  | inl e ↦ absurd (cc (rw e at h))
  | inr (f, known) ↦ (
    (f, known),
    build-IsSupported make rest (put f usage (make usage k) output) sources (rw known at h),
  )
]

-- The private sources, or the public ones, are only built when every configured algorithm is
-- supported.
pub built-IsSupported :
    (keys : KeysConfig) (sources : Sources)
    → (new_jwk_private_source keys ≡ ok sources) ⊎ (new_jwk_public_source keys ≡ ok sources)
    → IsSupported keys
unfolding new_jwk_private_source new_jwk_public_source
built-IsSupported keys sources (inl h) = build-IsSupported private_source keys no_sources sources h
built-IsSupported keys sources (inr h) = build-IsSupported public_source keys no_sources sources h
