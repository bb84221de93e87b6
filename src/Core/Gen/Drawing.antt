-- ===== src/Core/Gen/Drawing.antt =====
-- What the branch of JwkGen that makes a key needs of the outside, and that a generator of a
-- supported algorithm then gives a key.
use service_json_keys.Prelude.{ℕ, ◌+◌, ◌≤◌, arith, ◌≡◌, refl, false, Option, none, some, List}
use service_json_keys.Fault.{Result, ok}
use service_json_keys.Encoding.{Bytes}
use service_json_keys.Types.{Context, Handle, Row, Uuid}
use service_json_keys.Externals.{Externals, KeyPair, EcdsaPreset, RsaPreset}
use service_json_keys.Config.{
  Alg, ed_dsa, es256, es384, es512, rs256, rs384, rs512, ps256, ps384, ps512, other_alg,
}
use service_json_keys.World.{World, Exec, ◌>>=◌}
use service_json_keys.Dao.Schema.{has_id}
use service_json_keys.Core.Presets.{
  Generated, of_pair, jwk_generators, jwk_generator_ed25519, jwk_generator_es, jwk_generator_rsa,
  jwk_presets_ecdsa, jwk_presets_rsa,
}
use service_json_keys.Core.Presets.Laws.{IsDrawn, draw}
use service_json_keys.Core.Gen.{encode_public}
use service_json_keys.Core.Gen.Runs.{Runs}

-- The key that was made can be marshalled, and its identifier is a UUID that is new in the table.
pub record IsFit (x : Externals) (rows : List Row) (generated : Generated) : Type 0 where
  pub private_text : Bytes
  pub marshal_private : x.marshal generated.private_key ≡ ok private_text
  pub public_text : Option Bytes
  pub marshal_public : encode_public x generated.public_key ≡ ok public_text
  pub id : Uuid
  pub parsed : x.parse_uuid generated.private_kid ≡ ok id
  pub fresh : has_id id rows ≡ false

module _ (x : Externals) (from : ℕ) (rows : List Row) where
  -- From the call `from` on, the library gives a pair for the algorithm whenever it is asked for
  -- one, and it is fit.
  abbrev pub Draws : Alg → Type 0
  Draws alg =
      (n : ℕ) → from ≤ n → (pair : KeyPair) × IsDrawn x alg n pair × IsFit x rows (of_pair pair)

  -- The generator gives a fit key, and changes no row.
  abbrev pub IsDrawing : Exec Generated → Type 0
  IsDrawing g =
      (w : World)
      → w.rows ≡ rows
      → from ≤ w.step
      → Runs g w (λ generated v. (v.rows ≡ rows) × IsFit x rows generated)

  draw-IsDrawing :
      (pairs : ℕ → Result KeyPair)
      → ((n : ℕ) → from ≤ n → (pair : KeyPair) × (pairs n ≡ ok pair) × IsFit x rows (of_pair pair))
      → IsDrawing (draw pairs)
  unfolding ◌>>=◌
  draw-IsDrawing pairs given w same late =
      let (pair, e, fit) = given w.step late in
      record {
        value = of_pair pair;
        after = record w { step = w.step + 1 };
        ran = rw e;
        holds = (same, fit);
      }

  pub generator-IsDrawing :
      (alg : Alg) → Draws alg → (g : Exec Generated) × (jwk_generators x alg ≡ some g) × IsDrawing g
  unfolding jwk_generators jwk_generator_ed25519 jwk_generator_es jwk_generator_rsa
      jwk_presets_ecdsa jwk_presets_rsa ◌>>=◌
  generator-IsDrawing ed_dsa given = (_, refl, draw-IsDrawing x.generate_ed25519 given)
  generator-IsDrawing es256 given =
      (_, refl, draw-IsDrawing (x.generate_ecdsa EcdsaPreset.es256) given)
  generator-IsDrawing es384 given =
      (_, refl, draw-IsDrawing (x.generate_ecdsa EcdsaPreset.es384) given)
  generator-IsDrawing es512 given =
      (_, refl, draw-IsDrawing (x.generate_ecdsa EcdsaPreset.es512) given)
  generator-IsDrawing rs256 given = (_, refl, draw-IsDrawing (x.generate_rsa RsaPreset.rs256) given)
  generator-IsDrawing rs384 given = (_, refl, draw-IsDrawing (x.generate_rsa RsaPreset.rs384) given)
  generator-IsDrawing rs512 given = (_, refl, draw-IsDrawing (x.generate_rsa RsaPreset.rs512) given)
  generator-IsDrawing ps256 given = (_, refl, draw-IsDrawing (x.generate_rsa RsaPreset.ps256) given)
  generator-IsDrawing ps384 given = (_, refl, draw-IsDrawing (x.generate_rsa RsaPreset.ps384) given)
  generator-IsDrawing ps512 given = (_, refl, draw-IsDrawing (x.generate_rsa RsaPreset.ps512) given)
  generator-IsDrawing (other_alg name) given = absurd (given from (omega arith)).1

-- Nothing stands in the way of a key of the algorithm: there are a master key and a database, which
-- answers, and randomness, and fit pairs are generated for it from the call `from` on.
pub record CanGenerate (x : Externals) (ctx : Context) (alg : Alg) (from : ℕ) (rows : List Row)
    : Type 0 where
  pub secret : Bytes
  pub held : ctx.master_key ≡ some secret
  pub handle : Handle
  pub connected : ctx.postgres ≡ some handle
  pub up : (n : ℕ) → x.database_fault n ≡ none
  pub nonce : (n : ℕ) → (bytes : Bytes) × (x.nonce n ≡ ok bytes)
  pub draws : Draws x from rows alg
