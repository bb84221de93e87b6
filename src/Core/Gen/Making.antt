-- ===== src/Core/Gen/Making.antt =====
-- The branch of JwkGen that makes a key does make one.
use service_json_keys.Prelude.{
  ℕ, ◌+◌, ◌≤◌, String, ◌≡◌, ◌≢◌, refl, ap, ◌∙◌, false, none, some, [], ◌++◌, arith, length,
  length-append, take,
}
use service_json_keys.Fault.{ok, wrap}
use service_json_keys.Encoding.{Bytes}
use service_json_keys.Encoding.Base64
use service_json_keys.Encoding.Base64.Laws.{length-encode}
use service_json_keys.Types.{Context, Handle, Jwk}
use service_json_keys.Externals.{Externals, IsRandom}
use service_json_keys.Config.{JwkConfig}
use service_json_keys.World.{World, observe, query, ◌>>=◌}
use service_json_keys.Dao
use service_json_keys.Dao.Schema.{has_id, conflicts}
use service_json_keys.Dao.Order.{sort_newest}
use service_json_keys.Dao.Search.{served}
use service_json_keys.MasterKey.{encrypt_master_key}
use service_json_keys.Core.Gen.{generate}
use service_json_keys.Core.Gen.Runs.{Runs, Runs-result, Runs-lift, Runs-on_error, Runs->>=}
use service_json_keys.Core.Gen.Drawing.{IsFit, CanGenerate, generator-IsDrawing}

module _ (x : Externals) (ctx : Context) (key_config : JwkConfig) (usage : String) where
  encrypt-Runs :
      (k : Jwk) (w : World) {secret text bytes : Bytes}
      → IsRandom x
      → ctx.master_key ≡ some secret
      → x.marshal k ≡ ok text
      → x.nonce w.step ≡ ok bytes
      → Runs
          (encrypt_master_key x ctx k)
          w
          (λ sealed v. (v.rows ≡ w.rows) × (Base64.encode sealed ≢ []))
  unfolding encrypt_master_key ◌>>=◌
  encrypt-Runs k w {secret} {text} {bytes} random held marshalled drawn =
      let sealed = bytes ++ x.seal bytes secret text in
      record {
        value = sealed;
        after = record w { step = w.step + 1 };
        ran = rw (held, marshalled, drawn);
        holds = (
          refl,
          λ nothing. absurd (
              omega (
                arith,
                ap length nothing,
                length-encode sealed,
                length-append bytes (x.seal bytes secret text),
                random.length-nonce w.step bytes drawn,
              )),
        );
      }

  insert-Runs :
      (request : Dao.JwkInsertRequest) (w : World) {handle : Handle}
      → ctx.postgres ≡ some handle
      → x.database_fault w.step ≡ none
      → has_id request.id w.rows ≡ false
      → request.private_key ≢ []
      → Runs (Dao.insert x ctx request) w (λ row v. Unit {0})
  unfolding Dao.insert query conflicts
  insert-Runs request w connected up fresh filled =
      Runs-result (Dao.insert x ctx request) w (Dao.inserted x request) (ground arith) tt

  pub search-Runs :
      (w : World) {handle : Handle}
      → ctx.postgres ≡ some handle
      → x.database_fault w.step ≡ none
      → Runs (Dao.search x ctx usage) w (λ rows v. (v.rows ≡ w.rows) × (w.step ≤ v.step))
  unfolding Dao.search query
  search-Runs w connected up =
      Runs-result (Dao.search x ctx usage) w
        (take Dao.keys_max_batch_size (sort_newest (served usage w))) (ground arith)
        (ground arith, ground arith)

  pub generate-Runs :
      (w : World) {from : ℕ}
      → IsRandom x
      → CanGenerate x ctx key_config.alg from w.rows
      → from ≤ w.step
      → Runs (generate x ctx key_config usage) w (λ row v. Unit {0})
  unfolding generate
  generate-Runs w {from} random can begun =
      let (generator, supported, drawing) =
        generator-IsDrawing x from w.rows key_config.alg can.draws in
      Runs->>=
        (Runs-lift {P = λ g v. (g ≡ generator) × (v.rows ≡ w.rows) × (from ≤ v.step)} generator
          (rw supported) (refl, refl, begun))
        λ g w1 e1 known.
          Runs->>=
            (Runs-on_error {P = λ generated v. (v.rows ≡ w.rows) × IsFit x w.rows generated}
              (wrap "generate key") (rw known.0 (drawing w1 known.1 known.2)))
            λ generated w2 e2 fit.
              Runs->>=
                (Runs-on_error (wrap "encrypt private key") (
                  encrypt-Runs generated.private_key w2 random can.held fit.1.marshal_private
                    (can.nonce w2.step).1))
                λ sealed w3 e3 filled.
                  Runs->>=
                    (Runs-lift {P = λ kid v. (v.rows ≡ w.rows) × (has_id kid w.rows ≡ false)}
                      fit.1.id (rw fit.1.parsed) (filled.0 ∙ fit.0, fit.1.fresh))
                    λ kid w4 e4 named.
                      Runs->>=
                        (Runs-lift {P = λ public v. v.rows ≡ w.rows} fit.1.public_text
                          fit.1.marshal_public named.0)
                        λ public w5 e5 rows5.
                          Runs->>=
                            (Runs-result {P = λ created v. v.rows ≡ w.rows}
                              (observe (λ n. ok (x.now n))) w5 (x.now w5.step) refl rows5)
                            λ created w6 e6 rows6. Runs-on_error (wrap "insert key") (
                              insert-Runs _ w6 can.connected (can.up w6.step)
                                (ap (λ rows. has_id kid rows) rows6 ∙ named.1) filled.1)
