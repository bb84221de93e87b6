-- ===== src/Core/RotateAll/Progress.antt =====
-- That a rotation of all usages does succeed, when nothing outside stands in its way.
use service_json_keys.Prelude.{
  Any-append_cases, ℕ, ◌+◌, ◌≤◌, String, ◌≡◌, refl, sym, ◌∙◌, inl, inr, true, Option, some, List,
  [], ◌∷◌, arith, length, All,
}
use service_json_keys.Fault.{ok, wrap}
use service_json_keys.Clock.{max_int64, IsDuration}
use service_json_keys.Types.{Context, Jwk, Uuid, transaction}
use service_json_keys.Externals.{Externals, IsSecretbox, IsJson, IsRandom}
use service_json_keys.Config.{Alg, JwkConfig, KeysConfig, lookup}
use service_json_keys.World.{World, ◌>>=◌}
use service_json_keys.Dao.Insert.{has_id-append}
use service_json_keys.Core.Presets.{of_pair}
use service_json_keys.Core.Extract.Laws.{extract-master_key}
use service_json_keys.Core.Gen.{gen}
use service_json_keys.Core.Gen.Rotation.{Rotated, gen_sound}
use service_json_keys.Core.Gen.Runs.{Runs, Runs-on_error, Runs->>=}
use service_json_keys.Core.Gen.Drawing.{CanGenerate}
use service_json_keys.Core.Gen.Progress.{gen-Runs}
use service_json_keys.Core.RotateAll.{
  Transactor, IsTransactor, JwkRotateAllResponse, rotate_usages, rotate_all,
}
use service_json_keys.Core.RotateAll.Idle.{is_active_before, gen_onward}
use service_json_keys.Core.RotateAll.Laws.{Ensures, rotate_all_sound}
use service_json_keys.Core.RotateAll.Supply.{Supplies, CanRotate, IsOpen, IsFit-IsNamed, Commits}

module _ (x : Externals) (ctx : Context) (keys_config : KeysConfig) (id : ℕ → Uuid)
    (box : IsSecretbox x) (json : IsJson x) (random : IsRandom x)
    (distinct : (m n : ℕ) → id m ≡ id n → m ≡ n) where
  -- A row that was made for a pair has the identifier of the call that gave the pair.
  made-IsOpen :
      (usage : String) (key_config : JwkConfig) (w v : World) {key : Option Jwk}
      → Supplies x id key_config.alg
      → w.db_time ≤ v.db_time
      → Rotated x ctx key_config usage w v key
      → IsOpen x ctx id w
      → IsOpen x ctx id v
  made-IsOpen usage key_config w v supplies onward k (fresh, readable) =
      let (n, pair, after, soon, given, same) = k.made.origin in
      let is_id : k.row.id ≡ id n =
        cc (same, (supplies.named n pair given).parsed, k.made.identified) in
      (
        λ m late. rw k.added (
            has_id-append (id m) w.rows k.row
              (λ e. absurd (omega (arith, distinct n m (sym is_id ∙ e), k.timely)))
            ∙ fresh m (omega (arith, k.onward))),
        λ r listed active.
            elim (Any-append_cases (λ q. q ≡ r) w.rows (k.row ∷ []) (rw k.added at listed)) [
              | inl before ↦
                  readable r before (is_active_before w.db_time v.db_time r onward active)
              | inr (inl e) ↦ rw (← e) (some k.made.generated.private_key, k.made.private_back)
              | inr (inr nothing) ↦ elim nothing [ ]
            ],
      )

  gen-Runs-IsOpen :
      (usage : String) (key_config : JwkConfig) (w : World)
      → lookup usage keys_config ≡ some key_config
      → CanGenerate x ctx key_config.alg w.step w.rows
      → Supplies x id key_config.alg
      → IsDuration key_config.key.rotation
      → ((n : ℕ) → max_int64 ≤ x.now n)
      → IsOpen x ctx id w
      → Runs (gen x ctx keys_config usage) w (λ key v. IsOpen x ctx id v)
  gen-Runs-IsOpen usage key_config w configured can supplies short late (fresh, readable) =
      let runs =
        gen-Runs x ctx key_config usage keys_config w box json random configured can short late
          (λ n r onward served. inr (readable r served.2 served.1)) in
      let (_, onward) =
        gen_onward x keys_config box json random ctx usage key_config w runs.after configured
          runs.ran in
      record {
        value = runs.value;
        after = runs.after;
        ran = runs.ran;
        holds =
            elim (gen_sound x ctx keys_config key_config usage w runs.after runs.value box json
              random configured runs.ran) [
                | inl k ↦ (
                  λ n later. rw k.unchanged (fresh n (omega (arith, k.onward))),
                  λ r listed active.
                      readable r (rw k.unchanged at listed)
                        (is_active_before w.db_time runs.after.db_time r onward active),
                )
                | inr k ↦
                    made-IsOpen usage key_config w runs.after supplies onward k (fresh, readable)
              ];
      }

  -- What a usage's turn in the loop needs of the outside.
  can_generate :
      (alg : Alg) (w : World)
      → CanRotate x ctx keys_config id
      → ctx.postgres ≡ some transaction
      → Supplies x id alg
      → IsOpen x ctx id w
      → CanGenerate x ctx alg w.step w.rows
  can_generate alg w can within supplies (fresh, _) = record {
    secret = can.secret;
    held = can.held;
    handle = transaction;
    connected = within;
    up = can.up;
    nonce = can.nonce;
    draws = λ n late.
        let (pair, given) = supplies.pairs n in
        (
          pair,
          given,
          IsFit-IsNamed x ctx id (of_pair pair) n w.rows (fresh n late)
              (supplies.named n pair given),
        );
  }

  rotate_usages-Runs :
      (entries : List (String × JwkConfig)) (processed : ℕ) (w : World)
      → CanRotate x ctx keys_config id
      → ctx.postgres ≡ some transaction
      → All (λ e. lookup e.0 keys_config ≡ some e.1) entries
      → All (λ e. Supplies x id e.1.alg) entries
      → All (λ e. IsDuration e.1.key.rotation) entries
      → IsOpen x ctx id w
      → Runs (rotate_usages x keys_config entries processed ctx) w (λ n v. Unit {0})
  unfolding rotate_usages
  rotate_usages-Runs [] processed w can within known supplied short ready = record {
    value = processed;
    after = w;
    ran = refl;
    holds = tt;
  }
  rotate_usages-Runs ((usage, key_config) ∷ rest) processed w can within (configured, known)
        (supplies, supplied) (brief, short) ready =
      Runs->>=
        (Runs-on_error (wrap usage) (
          gen-Runs-IsOpen usage key_config w configured
            (can_generate key_config.alg w can within supplies ready) supplies brief can.late
            ready))
        λ key v e still.
          rotate_usages-Runs rest (processed + 1) v can within known supplied short still

-- A rotation succeeds when nothing outside stands in its way: let there be a master key, a database
-- that answers and commits, randomness, a clock past year 292, intervals that an int64 holds, and a
-- library that gives at every call a key pair for the algorithm of each usage that can be
-- marshalled and has a UUID of its own, which the table does not hold; let every active key in the
-- table be readable under the master key. Then every configured usage is processed, each has a
-- current key, and the rows that were there are kept in their order, and followed, of any usage, by
-- no more rows than the configuration has entries of that usage: by at most one where the keys
-- differ, as those of a Go map do, and by none of a usage that is not configured.
pub rotate_all_done :
    (x : Externals) (keys_config : KeysConfig) (id : ℕ → Uuid) (t : Transactor) (ctx : Context)
    (w : World)
    → IsSecretbox x
    → IsJson x
    → IsRandom x
    → IsTransactor t
    → Commits t
    → All (λ e. lookup e.0 keys_config ≡ some e.1) keys_config
    → CanRotate x ctx keys_config id
    → IsOpen x ctx id w
    → ((rotate_all x keys_config t ctx w).0 ≡ ok (record { processed = length keys_config }))
      × Ensures x w.step keys_config w.rows (rotate_all x keys_config t ctx w).1.rows
rotate_all_done x keys_config id t ctx w box json random transactor commits known can
      (fresh, readable) =
    let c = record ctx { postgres = some transaction } in
    let can' : CanRotate x c keys_config id = record {
      secret = can.secret;
      held = can.held;
      up = can.up;
      nonce = can.nonce;
      supplies = can.supplies;
      distinct = can.distinct;
      short = can.short;
      late = can.late;
    } in
    let ready : IsOpen x c id w = (
      fresh,
      λ r listed active.
          let (key, read) = readable r listed active in
          (key, extract-master_key x c ctx r true refl ∙ read),
    ) in
    let runs =
      rotate_usages-Runs x c keys_config id box json random can.distinct keys_config 0 w can' refl
        known can.supplies can.short ready in
    let whole : t.within_tx ctx (rotate_usages x keys_config keys_config 0) w
        ≡ (ok runs.value, runs.after) =
      commits.committed ctx (rotate_usages x keys_config keys_config 0) w runs.after runs.value
        runs.ran in
    let answer : (response : JwkRotateAllResponse) × ((rotate_all x keys_config t ctx w).0
          ≡ ok response) =
      (record { processed = runs.value }, unfold rotate_all ◌>>=◌ in rw whole refl) in
    elim (rotate_all_sound x keys_config box json random t ctx w transactor known) [
      | inl done ↦ done
      | inr (failed, _) ↦ absurd (failed answer.0 answer.1)
    ]
