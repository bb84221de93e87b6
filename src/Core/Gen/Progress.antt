-- ===== src/Core/Gen/Progress.antt =====
-- That JwkGen does make a key when one is due, and nothing outside stands in its way.
use service_json_keys.Prelude.{
  ℕ, ◌≤◌, String, ◌≡◌, refl, sym, subst, ◌⊎◌, inl, inr, true, Bool-cases, Option, some, List, [],
  ◌∷◌, arith, All, if◌then◌else◌,
}
use service_json_keys.Prelude.Int.{leb_ℤ, ◌≤ℤ◌}
use service_json_keys.Fault.{ok, wrap}
use service_json_keys.Clock.{Time, sub, sub-zero, zero_time, max_int64, IsDuration}
use service_json_keys.Types.{Context, Jwk, Row}
use service_json_keys.Externals.{Externals, IsSecretbox, IsJson, IsRandom}
use service_json_keys.Config.{JwkConfig, KeysConfig, lookup}
use service_json_keys.World.{World, lift, observe, ◌>>=◌}
use service_json_keys.World.Laws.{on_error-eq-ok}
use service_json_keys.Dao
use service_json_keys.Dao.Search.{IsServed, served, search_sound}
use service_json_keys.Core.Extract.{extract}
use service_json_keys.Core.Gen.{gen, generate, first_key, last_created}
use service_json_keys.Core.Gen.Generate.{generate-Made}
use service_json_keys.Core.Gen.Rotation.{Rotated, gen_sound}
use service_json_keys.Core.Gen.Runs.{Runs, Runs-result, Runs-lift, Runs-on_error, Runs->>=}
use service_json_keys.Core.Gen.Drawing.{CanGenerate}
use service_json_keys.Core.Gen.Making.{search-Runs, generate-Runs}

-- Its private key is read without an error.
abbrev pub IsReadable : Externals → Context → Row → Type 0
IsReadable x ctx row = (key : Option Jwk) × (extract x ctx row true ≡ ok key)

module _ (x : Externals) (ctx : Context) (key_config : JwkConfig) (usage : String) where
  -- Every active key of the usage is as old as the rotation interval at every reading of the clock.
  abbrev pub IsDue : World → Type 0
  IsDue w =
      (n : ℕ) (r : Row)
      → w.step ≤ n
      → IsServed usage w r
      → key_config.key.rotation ≤ℤ sub (x.now n) r.created_at

  -- Whichever of its two branches the call takes, at whatever reading of the clock, it can: an
  -- active key of the usage is as old as the rotation interval, or can be read.
  abbrev pub IsReady : World → Type 0
  IsReady w =
      (n : ℕ) (r : Row)
      → w.step ≤ n
      → IsServed usage w r
      → (key_config.key.rotation ≤ℤ sub (x.now n) r.created_at) ⊎ IsReadable x ctx r

  made-Runs :
      (w : World) {from : ℕ}
      → IsSecretbox x
      → IsJson x
      → IsRandom x
      → CanGenerate x ctx key_config.alg from w.rows
      → from ≤ w.step
      → Runs (generate x ctx key_config usage) w (λ row v. IsReadable x ctx row)
  made-Runs w box json random can begun =
      let r = generate-Runs x ctx key_config usage w random can begun in
      let ((made, _), _) =
        generate-Made x ctx key_config usage w r.after r.value box json random r.ran in
      record {
        value = r.value;
        after = r.after;
        ran = r.ran;
        holds = (some made.generated.private_key, made.private_back);
      }

  chosen-Runs :
      (keys : List Row) (w u : World) (n : ℕ)
      → IsSecretbox x
      → IsJson x
      → IsRandom x
      → CanGenerate x ctx key_config.alg w.step u.rows
      → w.step ≤ u.step
      → IsDuration key_config.key.rotation
      → max_int64 ≤ x.now n
      → w.step ≤ n
      → IsReady w
      → All (IsServed usage w) keys
      → Runs
          (if leb_ℤ key_config.key.rotation (sub (x.now n) (last_created keys))
            then generate x ctx key_config usage
            else first_key keys)
          u
          (λ row v. IsReadable x ctx row)
  unfolding last_created
  chosen-Runs [] w u n box json random can begun short late onward ready served =
      let reached : leb_ℤ key_config.key.rotation (sub (x.now n) zero_time) ≡ true =
        rw (sub-zero (x.now n) late) (ground arith) in
      rw reached (made-Runs u box json random can begun)
  chosen-Runs (main ∷ legacy) w u n box json random can begun short late onward ready served =
      elim (Bool-cases (leb_ℤ key_config.key.rotation (sub (x.now n) main.created_at))) [
        | inl reached ↦ rw reached (made-Runs u box json random can begun)
        | inr young ↦ elim (ready n main onward served.0) [
          | inl old ↦ absurd (ground arith)
          | inr readable ↦
              rw young (record { value = main; after = u; ran = refl; holds = readable })
        ]
      ]

  last-Runs :
      (k : JwkConfig) (checked : Time) (keys : List Row) (w u : World) (n : ℕ)
      → IsSecretbox x
      → IsJson x
      → IsRandom x
      → CanGenerate x ctx key_config.alg w.step u.rows
      → w.step ≤ u.step
      → IsDuration key_config.key.rotation
      → max_int64 ≤ x.now n
      → w.step ≤ n
      → IsReady w
      → All (IsServed usage w) keys
      → k ≡ key_config
      → checked ≡ x.now n
      → Runs
          ((if leb_ℤ k.key.rotation (sub checked (last_created keys))
              then generate x ctx k usage
              else first_key keys)
            >>= λ latest_key. lift (extract x ctx latest_key true))
          u
          (λ key v. Unit {0})
  last-Runs k checked keys w u n box json random can begun short late onward ready served same
        read =
      rw (same, read)
        (Runs->>= (chosen-Runs keys w u n box json random can begun short late onward ready served)
          λ row v e readable. Runs-lift readable.0 readable.1 tt)

  -- A call that can take either of its branches succeeds.
  pub gen-Runs :
      (keys_config : KeysConfig) (w : World)
      → IsSecretbox x
      → IsJson x
      → IsRandom x
      → lookup usage keys_config ≡ some key_config
      → CanGenerate x ctx key_config.alg w.step w.rows
      → IsDuration key_config.key.rotation
      → ((n : ℕ) → max_int64 ≤ x.now n)
      → IsReady w
      → Runs (gen x ctx keys_config usage) w (λ key v. Unit {0})
  unfolding gen
  gen-Runs keys_config w box json random configured can short late ready =
      Runs->>=
        (Runs-on_error (wrap "list keys")
          (search-Runs x ctx key_config usage w can.connected (can.up w.step)))
        λ keys w1 e1 kept.
          Runs->>=
            (Runs-lift {P = λ k v. (k ≡ key_config) × (v.rows ≡ w.rows) × (w.step ≤ v.step)}
              key_config (rw configured) (refl, kept.0, kept.1))
            λ k w2 e2 read.
              Runs->>=
                (Runs-result
                  {P = λ checked v.
                    (checked ≡ x.now w2.step) × (v.rows ≡ w.rows) × (w.step ≤ v.step)}
                  (observe (λ n. ok (x.now n))) w2 (x.now w2.step) refl
                  (refl, read.1, omega (arith, read.2)))
                λ checked w3 e3 at.
                  last-Runs k checked keys w w3 w2.step box json random
                    (subst (CanGenerate x ctx key_config.alg w.step) (sym at.1) can) at.2 short
                    (late w2.step) read.2 ready
                    (search_sound x ctx usage w w1 keys
                      (on_error-eq-ok (wrap "list keys") (Dao.search x ctx usage) w e1)).0
                    read.0 at.0

  -- A key that is due is made. Let there be a master key, a database that answers at every call,
  -- and randomness; let the library give, from the call's beginning on, key pairs for the algorithm
  -- of the usage that can be marshalled, and whose identifier is a UUID that the table does not
  -- hold; let the clock be past year 292, the rotation interval an int64, and every active key of
  -- the usage as old as the interval at every reading of the clock during the call or later. Then
  -- the call succeeds, and adds a row for a generated key, whose private half it gives.
  pub gen_due :
      (keys_config : KeysConfig) (w : World)
      → IsSecretbox x
      → IsJson x
      → IsRandom x
      → lookup usage keys_config ≡ some key_config
      → CanGenerate x ctx key_config.alg w.step w.rows
      → IsDuration key_config.key.rotation
      → ((n : ℕ) → max_int64 ≤ x.now n)
      → IsDue w
      → (key : Option Jwk) × (v : World) × (gen x ctx keys_config usage w ≡ (ok key, v))
        × Rotated x ctx key_config usage w v key
  unfolding gen
  gen_due keys_config w box json random configured can short late due =
      let runs =
        gen-Runs keys_config w box json random configured can short late
          (λ n r onward served. inl (due n r onward served)) in
      (
        runs.value,
        runs.after,
        runs.ran,
        elim (gen_sound x ctx keys_config key_config usage w runs.after runs.value box json random
            configured runs.ran) [
              | inr k ↦ k
              | inl k ↦ absurd (omega (arith, k.young, due k.reading k.main k.late k.served))
            ],
      )
