-- ===== src/Core/Gen/Rotation.antt =====
-- When JwkGen keeps the newest key of a usage, and when it adds one.
use service_json_keys.Prelude.{
  ℕ, ◌+◌, ◌≤◌, ◌<◌, String, ◌≡◌, sym, ap, ◌∙◌, ◌⊎◌, inl, inr, true, false, Option, some, List, [],
  ◌∷◌, ◌++◌, arith, Bool-cases, if◌then◌else◌,
}
use service_json_keys.Prelude.Int.{leb_ℤ, ◌≤ℤ◌, ◌<ℤ◌}
use service_json_keys.Fault.{ok, sentinel, wrap, config_not_found, or_raise-eq-ok}
use service_json_keys.Clock.{Time, sub, sub_antitone}
use service_json_keys.Types.{Context, Jwk, Row}
use service_json_keys.Externals.{Externals, IsSecretbox, IsJson, IsRandom}
use service_json_keys.Config.{JwkConfig, KeysConfig, lookup}
use service_json_keys.World.{World}
use service_json_keys.World.Laws.{>>=-eq-ok, on_error-eq-ok}
use service_json_keys.Dao
use service_json_keys.Dao.Search.{
  IsServed, search_sound, search_complete, search_main, search-eq-ok,
}
use service_json_keys.Core.Extract.{extract}
use service_json_keys.Core.Gen.{gen, generate, last_created, first_key}
use service_json_keys.Core.Gen.Generate.{Made, generate-Made}

module _ (x : Externals) (ctx : Context) (key_config : JwkConfig) (usage : String) (w v : World)
    (key : Option Jwk) where
  -- The newest active key of the usage is younger than the rotation interval: it is returned, and
  -- the table is as it was.
  pub record Kept : Type 0 where
    pub main : Row
    pub reading : ℕ
    pub late : w.step ≤ reading
    pub early : reading < v.step
    pub onward : w.step ≤ v.step
    pub served : IsServed usage w main
    pub newest : (r : Row) → IsServed usage w r → r.created_at ≤ main.created_at
    pub young : sub (x.now reading) main.created_at <ℤ key_config.key.rotation
    pub unchanged : v.rows ≡ w.rows
    pub given : extract x ctx main true ≡ ok key

  -- Every active key of the usage is as old as the rotation interval, or older: one row is added,
  -- and the private key that was generated for it is returned.
  pub record Rotated : Type 0 where
    pub row : Row
    pub reading : ℕ
    pub late : w.step ≤ reading
    pub early : reading < v.step
    pub onward : w.step ≤ v.step
    pub due :
        (r : Row) → IsServed usage w r → key_config.key.rotation ≤ℤ sub (x.now reading) r.created_at
    pub made : Made w.step x key_config usage ctx row
    pub onwards : reading ≤ made.reading
    pub timely : made.reading < v.step
    pub added : v.rows ≡ w.rows ++ row ∷ []
    pub given : key ≡ some made.generated.private_key

-- A count of calls that is not above another serves as well for it.
earlier :
    {from before : ℕ} {x : Externals} {key_config : JwkConfig} {usage : String} {ctx : Context}
    {row : Row}
    → Made from x key_config usage ctx row
    → before ≤ from
    → Made before x key_config usage ctx row
earlier m h = record {
  generated = m.generated;
  reading = m.reading;
  late = omega (arith, m.late);
  origin =
      let (n, pair, after, soon, given, same) = m.origin in
      (n, pair, omega arith, soon, given, same);
  of_usage = m.of_usage;
  created = m.created;
  expires = m.expires;
  undeleted = m.undeleted;
  identified = m.identified;
  private_back = m.private_back;
  public_back = m.public_back;
}

due_of_main :
    (x : Externals) (ctx : Context) (key_config : JwkConfig) (usage : String) (w u : World)
    (keys : List Row) (checked : Time)
    → Dao.search x ctx usage w ≡ (ok keys, u)
    → leb_ℤ key_config.key.rotation (sub checked (last_created keys)) ≡ true
    → (r : Row) → IsServed usage w r
    → key_config.key.rotation ≤ℤ sub checked r.created_at
unfolding last_created
due_of_main x ctx key_config usage w u [] checked found due r served =
    absurd (search_complete x ctx usage w u [] r found (omega arith) served)
due_of_main x ctx key_config usage w u (main ∷ legacy) checked found due r served =
    let older = search_main x ctx usage w u main legacy r found served in
    ground (arith, sub_antitone checked main.created_at r.created_at older)

module _ (x : Externals) (ctx : Context) (key_config : JwkConfig) (usage : String) (w u t v : World)
    (keys : List Row) (latest : Row) (reading : ℕ) (key : Option Jwk)
    (found : Dao.search x ctx usage w ≡ (ok keys, u)) (rows : t.rows ≡ w.rows)
    (late : w.step ≤ reading) (begun : reading < t.step)
    (extracted : extract x ctx latest true ≡ ok key) where
  kept_branch :
      leb_ℤ key_config.key.rotation (sub (x.now reading) (last_created keys)) ≡ false
      → first_key keys t ≡ (ok latest, v)
      → Kept x ctx key_config usage w v key
  kept_branch = go keys found
    where
      go :
          (ks : List Row)
          → Dao.search x ctx usage w ≡ (ok ks, u)
          → leb_ℤ key_config.key.rotation (sub (x.now reading) (last_created ks)) ≡ false
          → first_key ks t ≡ (ok latest, v)
          → Kept x ctx key_config usage w v key
      go [] listed young chosen = cc
      go (main ∷ legacy) listed young chosen =
          let same : main ≡ latest = cc chosen in
          let ended : t.step ≡ v.step = ap (λ p. p.1.step) chosen in
          let onward : w.step ≤ v.step = omega arith in
          let (all_served, _, _, _) = search_sound x ctx usage w u (main ∷ legacy) listed in
          record {
            main = main;
            reading = reading;
            late = late;
            early = omega arith;
            onward = onward;
            served = all_served.0;
            newest = λ r. search_main x ctx usage w u main legacy r listed;
            young = unfold last_created in ground arith;
            unchanged = sym (ap (λ p. p.1.rows) chosen) ∙ rows;
            given = rw same extracted;
          }

  rotated_branch :
      IsSecretbox x
      → IsJson x
      → IsRandom x
      → leb_ℤ key_config.key.rotation (sub (x.now reading) (last_created keys)) ≡ true
      → generate x ctx key_config usage t ≡ (ok latest, v)
      → Rotated x ctx key_config usage w v key
  unfolding earlier
  rotated_branch box json random due generated =
      let ((made, timely), added) =
        generate-Made x ctx key_config usage t v latest box json random generated in
      record {
        row = latest;
        reading = reading;
        late = late;
        early = omega (arith, begun, made.late, timely);
        onward = omega (arith, late, begun, made.late, timely);
        due = due_of_main x ctx key_config usage w u keys (x.now reading) found due;
        made = earlier made (omega arith);
        onwards = omega (arith, made.late);
        timely = timely;
        added = added ∙ ap (λ rs. rs ++ latest ∷ []) rows;
        given = cc (extracted, made.private_back);
      }

  branches :
      IsSecretbox x
      → IsJson x
      → IsRandom x
      → (if leb_ℤ key_config.key.rotation (sub (x.now reading) (last_created keys))
            then generate x ctx key_config usage
            else first_key keys)
          t
        ≡ (ok latest, v)
      → Kept x ctx key_config usage w v key ⊎ Rotated x ctx key_config usage w v key
  branches box json random chosen =
      elim (Bool-cases (leb_ℤ key_config.key.rotation (sub (x.now reading) (last_created keys)))) [
        | inl due ↦ inr (rotated_branch box json random due (rw due at chosen))
        | inr young ↦ inl (kept_branch young (rw young at chosen))
      ]

  finish :
      (read_config : JwkConfig) (checked : Time) (v' : World)
      → IsSecretbox x
      → IsJson x
      → IsRandom x
      → key_config ≡ read_config
      → x.now reading ≡ checked
      → v' ≡ v
      → (if leb_ℤ read_config.key.rotation (sub checked (last_created keys))
            then generate x ctx read_config usage
            else first_key keys)
          t
        ≡ (ok latest, v')
      → Kept x ctx key_config usage w v key ⊎ Rotated x ctx key_config usage w v key
  finish read_config checked v' box json random same at_reading world_is chosen =
      branches box json random (rw (same, at_reading, ← world_is) chosen)

-- A call that succeeds for a configured usage has done one of two things. Either it has left the
-- table as it was and given the private half of the newest active key of the usage, which was
-- younger than the rotation interval at a reading of the clock; or every active key of the usage
-- was as old as the interval or older, and it has added one row for a generated key and given its
-- private half.
pub gen_sound :
    (x : Externals) (ctx : Context) (keys_config : KeysConfig) (key_config : JwkConfig)
    (usage : String) (w v : World) (key : Option Jwk)
    → IsSecretbox x
    → IsJson x
    → IsRandom x
    → lookup usage keys_config ≡ some key_config
    → gen x ctx keys_config usage w ≡ (ok key, v)
    → Kept x ctx key_config usage w v key ⊎ Rotated x ctx key_config usage w v key
unfolding gen
gen_sound x ctx keys_config key_config usage w v key box json random configured h =
    let (keys, w1, listed, h1) = >>=-eq-ok _ _ w h in
    let (read_config, w2, known, h2) = >>=-eq-ok _ _ w1 h1 in
    let (checked, w3, read, h3) = >>=-eq-ok _ _ w2 h2 in
    let (latest, w4, chosen, h4) = >>=-eq-ok _ _ w3 h3 in
    let found = on_error-eq-ok (wrap "list keys") (Dao.search x ctx usage) w listed in
    let same : key_config ≡ read_config = cc (
      configured,
      or_raise-eq-ok (sentinel config_not_found) (lookup usage keys_config) (ap (λ p. p.0) known),
    ) in
    let (_, kept, step1) = search-eq-ok x ctx usage w w1 keys found in
    let step2 : w1.step ≡ w2.step = ap (λ p. p.1.step) known in
    let step3 : w2.step + 1 ≡ w3.step = ap (λ p. p.1.step) read in
    let late : w.step ≤ w2.step = omega arith in
    let begun : w2.step < w3.step = omega arith in
    let at_reading : x.now w2.step ≡ checked = cc read in
    let rows = sym (ap (λ p. p.1.rows) read) ∙ sym (ap (λ p. p.1.rows) known) ∙ kept in
    let world_is : w4 ≡ v = ap (λ p. p.1) h4 in
    finish x ctx key_config usage w w1 w3 v keys latest w2.step key found rows late begun
      (ap (λ p. p.0) h4) read_config checked w4 box json random same at_reading world_is chosen
