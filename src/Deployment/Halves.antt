-- ===== src/Deployment/Halves.antt =====
-- The two halves of the keys of a usage: what the server signs with, and what a client verifies
-- with.
use service_json_keys.Prelude.{
  ℕ, String, ◌≡◌, refl, sym, ap, ◌∙◌, subst, inl, inr, true, false, Bool, Bool-cases, Option, some,
  List, [], ◌∷◌, arith, length, map, All, All-append,
}
use service_json_keys.Fault.{ok}
use service_json_keys.Encoding.{Bytes}
use service_json_keys.Clock.{Time}
use service_json_keys.Types.{Context, Jwk, Row}
use service_json_keys.Externals.{Externals, KeyPair}
use service_json_keys.Config.{JwkConfig, KeysConfig, lookup}
use service_json_keys.World.{World}
use service_json_keys.Dao
use service_json_keys.Dao.Delete.{after, All-revoke_all}
use service_json_keys.Core.Presets.Laws.{IsDrawn}
use service_json_keys.Core.Extract.{extract}
use service_json_keys.Core.Extract.Laws.{extract-master_key, extract_of_public}
use service_json_keys.Core.Search.{extract_all}
use service_json_keys.Core.Gen.Rotation.{Rotated}
use service_json_keys.Deployment.Induction.{IsKept}

-- A revocation leaves both texts of a row as they are.
extract-after :
    (x : Externals) (ctx : Context) (request : Dao.JwkDeleteRequest) (now : Time) (r : Row)
    (private : Bool)
    → (extract x ctx (after x request now r) private ≡ extract x ctx r private)
      × ((after x request now r).usage ≡ r.usage)
unfolding extract
extract-after x ctx request now r private = elim (Bool-cases (Dao.targets request now r)) [
  | inl e ↦ rw e (refl, refl)
  | inr e ↦ rw e (refl, refl)
]

module _ (x : Externals) (ctx : Context) (usage : String) (key_config : JwkConfig) where
  -- The row holds a pair that the library gave for the algorithm, and both its halves can be read.
  abbrev pub IsHalved : Row → Type 0
  IsHalved r =
      (n : ℕ) × (pair : KeyPair) × IsDrawn x key_config.alg n pair
      × (extract x ctx r true ≡ ok (some pair.private))
      × (extract x ctx r false ≡ ok (some pair.public))

  abbrev pub IsPaired : World → Type 0
  IsPaired w = All (λ r. r.usage ≡ usage → IsHalved r) w.rows

  IsPaired-made :
      (keys_config : KeysConfig) (of_ctx : Context) (of_usage : String) (of_config : JwkConfig)
      (w v : World) {key : Option Jwk}
      → of_ctx.master_key ≡ ctx.master_key
      → lookup usage keys_config ≡ some key_config
      → lookup of_usage keys_config ≡ some of_config
      → Rotated x of_ctx of_config of_usage w v key
      → IsPaired w
      → IsPaired v
  IsPaired-made keys_config of_ctx of_usage of_config w v shared configured known k paired =
      let row = k.row in
      let (n, pair, _, _, given, is_pair) = k.made.origin in
      let private_half : extract x of_ctx row true ≡ ok (some pair.private) =
        k.made.private_back ∙ ap (λ g. ok (some g.private_key)) is_pair in
      let public_half : extract x of_ctx row false ≡ ok (some pair.public) =
        k.made.public_back pair.public (ap (λ g. g.public_key) is_pair) in
      rw k.added (
        All-append (λ r. r.usage ≡ usage → IsHalved r) w.rows (row ∷ []) paired
          (
            (λ same.
                let config_is : of_config ≡ key_config =
                  cc (known, configured, k.made.of_usage, same) in
                (
                  n,
                  pair,
                  subst (λ c. IsDrawn x c.alg n pair) config_is given,
                  sym (extract-master_key x of_ctx ctx row true shared) ∙ private_half,
                  sym (extract-master_key x of_ctx ctx row false shared) ∙ public_half,
                )),
            tt,
          ))

  after-IsHalved :
      (request : Dao.JwkDeleteRequest) (now : Time) (r : Row)
      → (r.usage ≡ usage → IsHalved r)
      → (after x request now r).usage ≡ usage
      → IsHalved (after x request now r)
  after-IsHalved request now r halved same =
      let (private_same, usage_same) = extract-after x ctx request now r true in
      let (public_same, _) = extract-after x ctx request now r false in
      let (n, pair, given, private_half, public_half) = halved (sym usage_same ∙ same) in
      (n, pair, given, private_same ∙ private_half, public_same ∙ public_half)

  pub IsPaired-IsKept :
      (keys_config : KeysConfig) (secret : Bytes) (skew : ℕ)
      → ctx.master_key ≡ some secret
      → lookup usage keys_config ≡ some key_config
      → IsKept x keys_config secret skew IsPaired
  IsPaired-IsKept keys_config secret skew held configured = record {
    passing = λ w v same onward paired. rw same paired;
    making = λ of_ctx of_usage of_config w v shared known in_step onward k paired.
        IsPaired-made keys_config of_ctx of_usage of_config w v (shared ∙ sym held) configured known
          k paired;
    revoking = λ request w v changed onward paired. rw changed (
        All-revoke_all x request (λ r. r.usage ≡ usage → IsHalved r)
          (λ r. r.usage ≡ usage → IsHalved r) w.db_time (after-IsHalved request w.db_time) w.rows
          paired);
  }

  -- The pairs of rows that are listed, as the two extractions give them.
  pub halves :
      (reader : Context) (rows : List Row)
      → All IsHalved rows
      → (pairs : List KeyPair) × All (λ p. (n : ℕ) × IsDrawn x key_config.alg n p) pairs
        × (length pairs ≡ length rows)
        × (extract_all x ctx true rows ≡ ok (map some (map (λ p. p.private) pairs)))
        × (extract_all x reader false rows ≡ ok (map some (map (λ p. p.public) pairs)))
  unfolding extract_all
  halves reader [] h = ([], tt, refl, refl, refl)
  halves reader (r ∷ rows) ((n, pair, given, private_half, public_half), h) =
      let (pairs, drawn, counted, privates, publics) = halves reader rows h in
      let read : extract x reader r false ≡ ok (some pair.public) =
        extract_of_public x ctx reader r r.private_key ∙ public_half in
      (
        pair ∷ pairs,
        ((n, given), drawn),
        omega (arith, counted),
        rw (private_half, privates) refl,
        rw (read, publics) refl,
      )
