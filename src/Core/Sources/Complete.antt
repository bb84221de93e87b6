-- ===== src/Core/Sources/Complete.antt =====
-- That the wiring leaves no configured usage without plugins.
use service_json_keys.Prelude.{
  String, ◌≡◌, ◌≢◌, refl, ◌⊎◌, inl, inr, some, List, [], ◌∷◌, ◌++◌, Bool-cases, true, subst, str_eq,
  eq_iff,
}
use service_json_keys.Fault.{
  Result, ok, jwk_preset_unknown, jwk_preset_unknown_algorithm, ◌>>=◌, sentinel, wrap, or_raise,
  >>=-eq-ok,
}
use service_json_keys.Config.{JwkConfig, KeysConfig, lookup}
use service_json_keys.Externals.{RsaPreset}
use service_json_keys.Core.Sources.{
  Source, Sources, Family, family, alg_name, eddsa_family, es_family, rsa_family, put, build,
  no_sources, new_jwk_private_source, new_jwk_public_source, private_source, public_source, Role,
  signer, verifier, ecdsa, rsa, follow, plugins_of, jws_presets_ecdsa, jws_presets_rsa, Plugin,
  ed25519, Plugins, add_plugin, wire_eddsa, wire_es, wire_rsa, wire, new_jwk_producers,
  new_jwk_recipients,
}

ok_injective : {A : Type 0} {a b : A} → ok a ≡ ok b → a ≡ b
ok_injective h = cc

-- A map has an entry for the key.
abbrev pub HasKey : {V : Type 0} → String → List (String × V) → Type 0
HasKey {V = V} key m = (v : V) × (lookup key m ≡ some v)

-- A usage has a plugin, be it among others.
abbrev pub HasPlugin : String → Plugins → Type 0
HasPlugin usage output =
    (plugins : List Plugin) × (lookup usage output ≡ some plugins) × (plugins ≢ [])

-- The sources of one family have an entry for the usage.
abbrev Kept : String → Sources → Type 0
Kept usage s = HasKey usage s.eddsa ⊎ (HasKey usage s.es ⊎ HasKey usage s.rsa)

module _ {V : Type 0} where
  HasKey-here : (key : String) (v : V) (m : List (String × V)) → HasKey key ((key, v) ∷ m)
  unfolding lookup
  HasKey-here key v m = (v, rw ((eq_iff key key).1 refl))

  HasKey-there :
      (key other : String) (v : V) (m : List (String × V))
      → HasKey key m
      → HasKey key ((other, v) ∷ m)
  unfolding lookup
  HasKey-there key other v m (found, h) = elim (Bool-cases (str_eq other key)) [
    | inl e ↦ (v, rw e)
    | inr e ↦ (found, rw e h)
  ]

append-ne-nil : {A : Type 0} (xs : List A) (x : A) → xs ++ x ∷ [] ≢ []
append-ne-nil [] x e = cc
append-ne-nil (y ∷ ys) x e = cc

module _ (role : Role) (keys : KeysConfig) (usage : String) where
  -- The usage has a plugin already, or is still to come.
  abbrev Awaited : List (String × Source) → Plugins → Type 0
  Awaited sources output = HasKey usage sources ⊎ HasPlugin usage output

  HasPlugin-there :
      (other : String) (plugins : List Plugin) (output : Plugins)
      → plugins ≢ []
      → HasPlugin usage output
      → HasPlugin usage ((other, plugins) ∷ output)
  unfolding lookup
  HasPlugin-there other plugins output some_here (found, h, some_there) =
      elim (Bool-cases (str_eq other usage)) [
        | inl e ↦ (plugins, rw e, some_here)
        | inr e ↦ (found, rw e h, some_there)
      ]

  Awaited-step :
      (other : String) (source : Source) (rest : List (String × Source)) (plugins : List Plugin)
      (output : Plugins)
      → plugins ≢ []
      → Awaited ((other, source) ∷ rest) output
      → Awaited rest ((other, plugins) ∷ output)
  unfolding lookup
  Awaited-step other source rest plugins output given (inr h) =
      inr (HasPlugin-there other plugins output given h)
  Awaited-step other source rest plugins output given (inl (found, h)) =
      elim (Bool-cases (str_eq other usage)) [
        | inl e ↦ inr (plugins, rw e, given)
        | inr e ↦ inl (found, rw e at h)
      ]

  wire_eddsa-HasPlugin :
      (sources : List (String × Source)) (output : Plugins)
      → Awaited sources output
      → HasPlugin usage (wire_eddsa role keys sources output)
  unfolding wire_eddsa lookup
  wire_eddsa-HasPlugin [] output (inl (found, h)) = absurd cc
  wire_eddsa-HasPlugin [] output (inr h) = h
  wire_eddsa-HasPlugin ((other, source) ∷ rest) output h =
      wire_eddsa-HasPlugin rest ((other, ed25519 role source ∷ []) ∷ output)
        (Awaited-step other source rest (ed25519 role source ∷ []) output (λ e. cc) h)

  wire_es-HasPlugin :
      (sources : List (String × Source)) (output all : Plugins)
      → wire_es role keys sources output ≡ ok all
      → Awaited sources output
      → HasPlugin usage all
  unfolding wire_es lookup
  wire_es-HasPlugin [] output all h (inl (found, e)) = absurd cc
  wire_es-HasPlugin [] output all h (inr (found, e, given)) =
      (found, rw (← ok_injective h) e, given)
  wire_es-HasPlugin ((other, source) ∷ rest) output all h awaited =
      let next : JwkConfig → Plugins =
        λ k. add_plugin other (ecdsa role source (jws_presets_ecdsa k.alg)) output in
      let (k, read, later) =
        >>=-eq-ok (follow (lookup other keys)) (λ k. wire_es role keys rest (next k)) h in
      wire_es-HasPlugin rest (next k) all later (
        Awaited-step other source rest
          (plugins_of (lookup other output) ++ ecdsa role source (jws_presets_ecdsa k.alg) ∷ [])
          output (append-ne-nil (plugins_of (lookup other output)) _) awaited)

  wire_rsa-HasPlugin :
      (sources : List (String × Source)) (output all : Plugins)
      → wire_rsa role keys sources output ≡ ok all
      → Awaited sources output
      → HasPlugin usage all
  unfolding wire_rsa lookup
  wire_rsa-HasPlugin [] output all h (inl (found, e)) = absurd cc
  wire_rsa-HasPlugin [] output all h (inr (found, e, given)) =
      (found, rw (← ok_injective h) e, given)
  wire_rsa-HasPlugin ((other, source) ∷ rest) output all h awaited =
      let next : RsaPreset → Plugins = λ preset. add_plugin other (rsa role source preset) output in
      let find : JwkConfig → Result RsaPreset =
        λ k. or_raise (wrap other (sentinel jwk_preset_unknown)) (jws_presets_rsa k.alg) in
      let (k, read, later) =
        >>=-eq-ok (follow (lookup other keys))
          (λ k. find k >>= λ preset. wire_rsa role keys rest (next preset)) h in
      let (preset, known, last) =
        >>=-eq-ok (find k) (λ preset. wire_rsa role keys rest (next preset)) later in
      wire_rsa-HasPlugin rest (next preset) all last (
        Awaited-step other source rest
          (plugins_of (lookup other output) ++ rsa role source preset ∷ []) output
          (append-ne-nil (plugins_of (lookup other output)) _) awaited)

  wire-HasPlugin :
      (sources : Sources) (all : Plugins)
      → wire role sources keys ≡ ok all
      → Kept usage sources
      → HasPlugin usage all
  unfolding lookup
  wire-HasPlugin sources all h kept =
      let first = wire_eddsa role keys sources.eddsa [] in
      let (middle, es_runs, rsa_runs) =
        >>=-eq-ok (wire_es role keys sources.es first) (wire_rsa role keys sources.rsa) h in
      elim kept [
        | inl e ↦ wire_rsa-HasPlugin sources.rsa middle all rsa_runs (
            inr (
              wire_es-HasPlugin sources.es first middle es_runs
                (inr (wire_eddsa-HasPlugin sources.eddsa [] (inl e)))))
        | inr (inl e) ↦
            wire_rsa-HasPlugin sources.rsa middle all rsa_runs
              (inr (wire_es-HasPlugin sources.es first middle es_runs (inl e)))
        | inr (inr e) ↦ wire_rsa-HasPlugin sources.rsa middle all rsa_runs (inl e)
      ]

module _ (make : String → JwkConfig → Source) (usage : String) where
  here-or-there :
      (key : String) (source : Source) (m : List (String × Source))
      → (str_eq key usage ≡ true) ⊎ HasKey usage m
      → HasKey usage ((key, source) ∷ m)
  unfolding lookup
  here-or-there key source m (inl e) = (source, rw e)
  here-or-there key source m (inr h) = HasKey-there usage key source m h

  put-Kept :
      (f : Family) (key : String) (source : Source) (output : Sources)
      → (str_eq key usage ≡ true) ⊎ Kept usage output
      → Kept usage (put f key source output)
  put-Kept eddsa_family key source output (inl e) =
      inl (here-or-there key source output.eddsa (inl e))
  put-Kept es_family key source output (inl e) =
      inr (inl (here-or-there key source output.es (inl e)))
  put-Kept rsa_family key source output (inl e) =
      inr (inr (here-or-there key source output.rsa (inl e)))
  put-Kept eddsa_family key source output (inr (inl h)) =
      inl (here-or-there key source output.eddsa (inr h))
  put-Kept eddsa_family key source output (inr (inr h)) = inr h
  put-Kept es_family key source output (inr (inl h)) = inl h
  put-Kept es_family key source output (inr (inr (inl h))) =
      inr (inl (here-or-there key source output.es (inr h)))
  put-Kept es_family key source output (inr (inr (inr h))) = inr (inr h)
  put-Kept rsa_family key source output (inr (inl h)) = inl h
  put-Kept rsa_family key source output (inr (inr (inl h))) = inr (inl h)
  put-Kept rsa_family key source output (inr (inr (inr h))) =
      inr (inr (here-or-there key source output.rsa (inr h)))

  build-Kept :
      (rest : KeysConfig) (output sources : Sources)
      → build make rest output ≡ ok sources
      → HasKey usage rest ⊎ Kept usage output
      → Kept usage sources
  unfolding build lookup
  build-Kept [] output sources h (inl (k, e)) = absurd cc
  build-Kept [] output sources h (inr kept) = subst (Kept usage) (ok_injective h) kept
  build-Kept ((key, k) ∷ rest) output sources h awaited =
      let (f, known, later) =
        >>=-eq-ok
          (or_raise (wrap (alg_name k.alg) (sentinel jwk_preset_unknown_algorithm)) (family k.alg))
          (λ f. build make rest (put f key (make key k) output)) h in
      build-Kept rest (put f key (make key k) output) sources later (elim awaited [
        | inr kept ↦ inr (put-Kept f key (make key k) output (inr kept))
        | inl (found, e) ↦ elim (Bool-cases (str_eq key usage)) [
          | inl same ↦ inr (put-Kept f key (make key k) output (inl same))
          | inr other ↦ inl (found, rw other at e)
        ]
      ])

pub producers_complete :
    (keys : KeysConfig) (usage : String) (sources : Sources) (producers : Plugins)
    → new_jwk_private_source keys ≡ ok sources
    → new_jwk_producers sources keys ≡ ok producers
    → HasKey usage keys
    → HasPlugin usage producers
unfolding new_jwk_private_source new_jwk_producers
producers_complete keys usage sources producers built made h =
    wire-HasPlugin signer keys usage sources producers made
      (build-Kept private_source usage keys no_sources sources built (inl h))

pub recipients_complete :
    (keys : KeysConfig) (usage : String) (sources : Sources) (recipients : Plugins)
    → new_jwk_public_source keys ≡ ok sources
    → new_jwk_recipients sources keys ≡ ok recipients
    → HasKey usage keys
    → HasPlugin usage recipients
unfolding new_jwk_public_source new_jwk_recipients
recipients_complete keys usage sources recipients built made h =
    wire-HasPlugin verifier keys usage sources recipients made
      (build-Kept public_source usage keys no_sources sources built (inl h))
