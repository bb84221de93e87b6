-- ===== src/Core/Gen/Generate.antt =====
-- The branch of JwkGen that makes a key: what it adds to the table, and that the added row gives
-- back the generated pair.
use service_json_keys.Prelude.{
  ℕ, ◌+◌, ◌≤◌, ◌<◌, String, ◌≡◌, refl, sym, ap, subst, ◌∙◌, inl, inr, true, false, Option, none,
  some, [], ◌∷◌, ◌++◌, arith,
}
use service_json_keys.Fault.{
  ok, wrap, sentinel, jwk_gen_unknown_key_usage, Result-cases, or_raise-eq-ok,
}
use service_json_keys.Encoding.{Bytes}
use service_json_keys.Encoding.Base64
use service_json_keys.Clock.{Time, add}
use service_json_keys.Types.{Context, Jwk, Row, Uuid}
use service_json_keys.Externals.{Externals, IsSecretbox, IsJson, IsRandom}
use service_json_keys.Config.{JwkConfig}
use service_json_keys.World.{World}
use service_json_keys.World.Laws.{>>=-eq-ok, on_error-eq-ok, lift-eq-ok}
use service_json_keys.Dao
use service_json_keys.Dao.{JwkInsertRequest, inserted}
use service_json_keys.Dao.Insert.{insert_cases, step-insert}
use service_json_keys.MasterKey.{encrypt_master_key}
use service_json_keys.MasterKey.Laws.{encrypt-eq-ok, decrypt-encrypt, encrypt-IsBytes}
use service_json_keys.Core.Presets.{Generated, jwk_generators}
use service_json_keys.Core.Presets.Laws.{IsFrom, generator_drawn}
use service_json_keys.Core.Extract.{extract}
use service_json_keys.Core.Extract.Laws.{extract-private, extract-public}
use service_json_keys.Core.Gen.{generate, encode_public, now}

-- What was generated, and when, for a row that was added, `from` the number of outside calls
-- before.
pub record Made (from : ℕ) (x : Externals) (key_config : JwkConfig) (usage : String) (ctx : Context)
    (row : Row) : Type 0 where
  pub generated : Generated
  pub reading : ℕ
  pub late : from ≤ reading
  pub origin : IsFrom x key_config.alg from reading generated
  pub of_usage : row.usage ≡ usage
  pub created : row.created_at ≡ x.stamp (x.now reading)
  pub expires : row.expires_at ≡ x.stamp (add (x.now reading) key_config.key.ttl)
  pub undeleted : row.deleted_at ≡ none
  pub identified : x.parse_uuid generated.private_kid ≡ ok row.id
  pub private_back : extract x ctx row true ≡ ok (some generated.private_key)
  pub public_back :
      (key : Jwk) → generated.public_key ≡ some key → extract x ctx row false ≡ ok (some key)

module _ (x : Externals) (ctx : Context) (key_config : JwkConfig) (usage : String) where
  -- What is inserted for a generated pair, at a reading of the clock.
  abbrev request : Uuid → Bytes → Option Bytes → ℕ → JwkInsertRequest
  request kid encrypted public n = record {
    id = kid;
    private_key = Base64.encode encrypted;
    public_key = public;
    usage = usage;
    now = x.now n;
    expiration = add (x.now n) key_config.key.ttl;
  }

  encode_public-some :
      (key : Jwk) (public : Option Bytes)
      → encode_public x (some key) ≡ ok public
      → (text : Bytes) × (x.marshal key ≡ ok text) × (public ≡ some (Base64.encode text))
  encode_public-some key public h = elim (Result-cases (x.marshal key)) [
    | inl (text, e) ↦ (text, e, ground arith)
    | inr e ↦ absurd (ground arith)
  ]

  public_back-inserted :
      (generated : Generated) (kid : Uuid) (encrypted : Bytes) (public : Option Bytes) (n : ℕ)
      (key : Jwk)
      → IsJson x
      → encode_public x generated.public_key ≡ ok public
      → generated.public_key ≡ some key
      → extract x ctx (inserted x (request kid encrypted public n)) false ≡ ok (some key)
  public_back-inserted generated kid encrypted public n key json encoded is =
      let (text, marshalled, stored) = encode_public-some key public (rw is at encoded) in
      extract-public x ctx (inserted x (request kid encrypted public n)) text (some key)
        (json.marshal-IsBytes key text marshalled) stored
        (json.unmarshal-marshal key text marshalled)

  -- The row was made, at a reading of the clock before the end.
  abbrev pub IsMadeBefore : ℕ → ℕ → Row → Type 0
  IsMadeBefore from end row = (made : Made from x key_config usage ctx row) × (made.reading < end)

  assemble :
      (generated : Generated) (kid : Uuid) (encrypted : Bytes) (public : Option Bytes)
      (n from end : ℕ) (w v : World)
      → IsFrom x key_config.alg from n generated
      → n < end
      → IsSecretbox x
      → IsJson x
      → IsRandom x
      → encrypt_master_key x ctx generated.private_key w ≡ (ok encrypted, v)
      → x.parse_uuid generated.private_kid ≡ ok kid
      → encode_public x generated.public_key ≡ ok public
      → IsMadeBefore from end (inserted x (request kid encrypted public n))
  assemble generated kid encrypted public n from end w v origin timely box json random sealed parsed
        encoded =
      (
        record {
          generated = generated;
          reading = n;
          late = omega (arith, origin.2, origin.3);
          origin = origin;
          of_usage = refl;
          created = refl;
          expires = refl;
          undeleted = refl;
          identified = parsed;
          private_back =
              extract-private x ctx (inserted x (request kid encrypted public n)) encrypted
                (some generated.private_key)
                (encrypt-IsBytes x ctx generated.private_key w v encrypted box json random sealed)
                refl
                (decrypt-encrypt x ctx generated.private_key w v encrypted box json random sealed);
          public_back =
              λ key is. public_back-inserted generated kid encrypted public n key json encoded is;
        },
        timely,
      )

  insert-eq-ok :
      (r : JwkInsertRequest) (w v : World) (row : Row)
      → Dao.insert x ctx r w ≡ (ok row, v)
      → (row ≡ inserted x r) × (v.rows ≡ w.rows ++ inserted x r ∷ [])
  insert-eq-ok r w v row h = elim (insert_cases x ctx r w) [
    | inl (done, added, _, _) ↦
        let row_is : inserted x r ≡ row = cc (done, h) in
        let world_is : (Dao.insert x ctx r w).1 ≡ v = ap (λ p. p.1) h in
        (sym row_is, ap (λ u. u.rows) (sym world_is) ∙ added)
    | inr (failed, _) ↦ absurd (failed row (ap (λ p. p.0) h))
  ]

  -- The last steps: the clock is read, and the row inserted.
  stored :
      (kid : Uuid) (encrypted : Bytes) (public : Option Bytes) (created : Time) (w u v : World)
      (row : Row)
      → now x w ≡ (ok created, u)
      → Dao.insert x ctx
          (record (request kid encrypted public w.step) {
            now = created;
            expiration = add created key_config.key.ttl;
          })
          u
        ≡ (ok row, v)
      → (row ≡ inserted x (request kid encrypted public w.step))
        × (v.rows ≡ w.rows ++ row ∷ [])
        × (w.step < v.step)
  stored kid encrypted public created w u v row read placed =
      let reading : x.now w.step ≡ created = cc read in
      let same : w.rows ≡ u.rows = ap (λ p. p.1.rows) read in
      let (is, added) =
        insert-eq-ok (request kid encrypted public w.step) u v row (rw reading placed) in
      let read_step : w.step + 1 ≡ u.step = ap (λ p. p.1.step) read in
      let sent = record (request kid encrypted public w.step) {
        now = created;
        expiration = add created key_config.key.ttl;
      } in
      let last : (Dao.insert x ctx sent u).1.step ≡ v.step = ap (λ p. p.1.step) placed in
      (is, added ∙ cc (same, is), omega (arith, step-insert x ctx sent u))

  -- A generation that succeeds adds one row, of the usage and not deleted, for a pair that the
  -- library gave for the algorithm of the usage during the call, with the identifier of the
  -- generated private key, created at a reading of the clock during the call and expiring after the
  -- configured lifetime; extracting it gives back the generated private key and, if there is one,
  -- the generated public key.
  pub generate-Made :
      (w v : World) (row : Row)
      → IsSecretbox x
      → IsJson x
      → IsRandom x
      → generate x ctx key_config usage w ≡ (ok row, v)
      → IsMadeBefore w.step v.step row × (v.rows ≡ w.rows ++ row ∷ [])
  unfolding generate
  generate-Made w v row box json random h =
      let (g, w1, known, h1) = >>=-eq-ok _ _ w h in
      let (generated, w2, made, h2) = >>=-eq-ok _ _ w1 h1 in
      let (encrypted, w3, sealed, h3) = >>=-eq-ok _ _ w2 h2 in
      let (kid, w4, parsed, h4) = >>=-eq-ok _ _ w3 h3 in
      let (public, w5, encoded, h5) = >>=-eq-ok _ _ w4 h4 in
      let (created, w6, read, h6) = >>=-eq-ok _ _ w5 h5 in
      let made' = on_error-eq-ok (wrap "generate key") g w1 made in
      let sealed' =
        on_error-eq-ok (wrap "encrypt private key") (encrypt_master_key x ctx generated.private_key)
          w2 sealed in
      let (parsed', _) =
        lift-eq-ok (wrap "parse KID") (x.parse_uuid generated.private_kid) w3 parsed in
      let (is, added, step_stored) =
        stored kid encrypted public created w5 w6 v row read
          (on_error-eq-ok (wrap "insert key") (Dao.insert x ctx _) w6 h6) in
      let (_, _, _, _, _, _, _, after_sealed, step_sealed) =
        encrypt-eq-ok x ctx generated.private_key w2 w3 encrypted sealed' in
      let generator : jwk_generators x key_config.alg ≡ some g =
        or_raise-eq-ok (wrap usage (sentinel jwk_gen_unknown_key_usage))
          (jwk_generators x key_config.alg) (ap (λ p. p.0) known) in
      let (same_made, step_made, drawn) =
        generator_drawn x key_config.alg g generated w1 w2 generator made' in
      let step1 : w.step ≡ w1.step = ap (λ p. p.1.step) known in
      let step4 : w3.step ≡ w4.step = ap (λ p. p.1.step) parsed in
      let step5 : w4.step ≡ w5.step = ap (λ p. p.1.step) encoded in
      let (n, pair, after_n, before_n, given, is_pair) = drawn in
      let origin : IsFrom x key_config.alg w.step w5.step generated =
        (n, pair, omega arith, omega arith, given, is_pair) in
      let kept : w5.rows ≡ w.rows =
        sym (ap (λ p. p.1.rows) encoded)
        ∙ sym (ap (λ p. p.1.rows) parsed)
        ∙ after_sealed
        ∙ same_made
        ∙ sym (ap (λ p. p.1.rows) known) in
      (
        subst (IsMadeBefore w.step v.step) (sym is) (
            assemble generated kid encrypted public w5.step w.step v.step w2 w3 origin step_stored
              box json random sealed' parsed' (ap (λ p. p.0) encoded)),
        added ∙ ap (λ rows. rows ++ row ∷ []) kept,
      )
