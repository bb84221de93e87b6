-- ===== src/Core/RotateAll/Laws.antt =====
-- What a rotation of all usages has done when it succeeds, and that it does nothing otherwise.
use service_json_keys.Prelude.{
  ℕ, ◌+◌, ◌≤◌, String, str_eq, select, select-append, Bool-cases, ◌≡◌, ◌≢◌, refl, sym, ap, ◌∙◌, ◌⊎◌,
  inl, inr, some, List, [], ◌∷◌, ◌++◌, arith, length, length-append, All, All-imp, Any-append_left,
  Any-append_right, Listed, Option,
}
use mathlib.Core.List.{append-nil, append_assoc}
use service_json_keys.Prelude.Int.{◌<ℤ◌}
use service_json_keys.Fault.{ok, wrap, Result-cases}
use service_json_keys.Clock.{sub}
use service_json_keys.Types.{Context, Jwk, Row, transaction}
use service_json_keys.Externals.{Externals, IsSecretbox, IsJson, IsRandom}
use service_json_keys.Config.{JwkConfig, KeysConfig, lookup}
use service_json_keys.World.{World, ◌>>=◌}
use service_json_keys.World.Laws.{>>=-eq-ok, on_error-eq-ok}
use service_json_keys.Core.Gen.{gen}
use service_json_keys.Core.Gen.Rotation.{gen_sound}
use service_json_keys.Core.RotateAll.{
  Transactor, IsTransactor, JwkRotateAllResponse, rotate_usages, rotate_all,
}

-- At a reading of the clock that comes after the first `from` outside calls, the row was created,
-- or was younger than the rotation interval.
abbrev pub IsCurrent : Externals → ℕ → JwkConfig → Row → Type 0
IsCurrent x from key_config row =
    (reading : ℕ) × (from ≤ reading)
    × ((sub (x.now reading) row.created_at <ℤ key_config.key.rotation)
        ⊎ (row.created_at ≡ x.stamp (x.now reading)))

-- The table holds a current key of the usage.
abbrev pub IsEnsured : Externals → ℕ → List Row → String × JwkConfig → Type 0
IsEnsured x from rows (usage, key_config) =
    (row : Row) × Listed row rows × (row.usage ≡ usage) × IsCurrent x from key_config row

-- How many of the rows are of the usage, and how many of the entries.
abbrev pub rows_of : String → List Row → ℕ
rows_of usage rows = length (select (λ r. str_eq r.usage usage) rows)

abbrev pub entries_of : String → List (String × JwkConfig) → ℕ
entries_of usage entries = length (select (λ e. str_eq e.0 usage) entries)

-- What the loop over the entries has done to the table: each of their usages has a current key, and
-- the rows that were there are followed by rows of which no more are of a usage than there are
-- entries of it.
abbrev pub Ensures : Externals → ℕ → List (String × JwkConfig) → List Row → List Row → Type 0
Ensures x from entries before after =
    All (IsEnsured x from after) entries
    × ((added : List Row) × (after ≡ before ++ added)
        × ((usage : String) → rows_of usage added ≤ entries_of usage entries))

rows_of-append :
    (usage : String) (rows more : List Row)
    → rows_of usage (rows ++ more) ≡ rows_of usage rows + rows_of usage more
rows_of-append usage rows more =
    ap length (select-append (λ r. str_eq r.usage usage) rows more)
    ∙ length-append (select (λ r. str_eq r.usage usage) rows)
        (select (λ r. str_eq r.usage usage) more)

rows_of-made :
    (usage : String) (row : Row) (key_config : JwkConfig) {made_for : String}
    → row.usage ≡ made_for
    → rows_of usage (row ∷ []) ≤ entries_of usage ((made_for, key_config) ∷ [])
rows_of-made usage row key_config {made_for} same = elim (Bool-cases (str_eq made_for usage)) [
  | inl e ↦ rw (same, e) (omega arith)
  | inr e ↦ rw (same, e) (omega arith)
]

entries_of-cons :
    (usage : String) (entry : String × JwkConfig) (rest : List (String × JwkConfig))
    → entries_of usage (entry ∷ rest) ≡ entries_of usage (entry ∷ []) + entries_of usage rest
entries_of-cons usage entry rest = ground arith

module _ (x : Externals) (keys_config : KeysConfig) (box : IsSecretbox x) (json : IsJson x)
    (random : IsRandom x) where
  IsEnsured-append :
      (from : ℕ) (rows added : List Row) (e : String × JwkConfig)
      → IsEnsured x from rows e
      → IsEnsured x from (rows ++ added) e
  IsEnsured-append from rows added e (row, here, of_usage, current) =
      (row, Any-append_left (λ q. q ≡ row) rows added here, of_usage, current)

  IsEnsured-earlier :
      (before from : ℕ) (rows : List Row) (e : String × JwkConfig)
      → before ≤ from
      → IsEnsured x from rows e
      → IsEnsured x before rows e
  IsEnsured-earlier before from rows e h (row, here, of_usage, (reading, late, current)) =
      (row, here, of_usage, (reading, omega arith, current))

  -- One usage.
  gen-IsEnsured :
      (ctx : Context) (usage : String) (key_config : JwkConfig) (w v : World) {key : Option Jwk}
      → lookup usage keys_config ≡ some key_config
      → gen x ctx keys_config usage w ≡ (ok key, v)
      → IsEnsured x w.step v.rows (usage, key_config)
        × (w.step ≤ v.step)
        × ((added : List Row) × (v.rows ≡ w.rows ++ added)
            × ((of : String) → rows_of of added ≤ entries_of of ((usage, key_config) ∷ [])))
  gen-IsEnsured ctx usage key_config w v {key} configured h =
      elim (gen_sound x ctx keys_config key_config usage w v key box json random configured h) [
        | inl k ↦ (
          (k.main, rw k.unchanged k.served.2, k.served.0, (k.reading, k.late, inl k.young)),
          k.onward,
          ([], k.unchanged ∙ sym (append-nil w.rows), λ of. omega arith),
        )
        | inr r ↦ (
          (
            r.row,
            rw r.added (Any-append_right (λ q. q ≡ r.row) w.rows (r.row ∷ []) (inl refl)),
            r.made.of_usage,
            (r.made.reading, r.made.late, inr r.made.created),
          ),
          r.onward,
          (r.row ∷ [], r.added, λ of. rows_of-made of r.row key_config r.made.of_usage),
        )
      ]

  Ensures-cons :
      (usage : String) (key_config : JwkConfig) (rest : List (String × JwkConfig)) (from next : ℕ)
      (before middle after added : List Row)
      → from ≤ next
      → IsEnsured x from middle (usage, key_config)
      → middle ≡ before ++ added
      → ((of : String) → rows_of of added ≤ entries_of of ((usage, key_config) ∷ []))
      → Ensures x next rest middle after
      → Ensures x from ((usage, key_config) ∷ rest) before after
  Ensures-cons usage key_config rest from next before middle after added onward here is one
        (ensured, (more, is', few)) =
      (
        (
          rw is' (IsEnsured-append from middle more (usage, key_config) here),
          All-imp (λ e. IsEnsured-earlier from next after e onward) rest ensured,
        ),
        (
          added ++ more,
          is' ∙ ap (λ rows. rows ++ more) is ∙ append_assoc before added more,
          λ of. omega (
            arith,
            rows_of-append of added more,
            one of,
            few of,
            entries_of-cons of (usage, key_config) rest,
          ),
        ),
      )

  rotate_usages-Ensures :
      (entries : List (String × JwkConfig)) (processed n : ℕ) (ctx : Context) (w v : World)
      → All (λ e. lookup e.0 keys_config ≡ some e.1) entries
      → rotate_usages x keys_config entries processed ctx w ≡ (ok n, v)
      → (n ≡ processed + length entries) × Ensures x w.step entries w.rows v.rows
  unfolding rotate_usages
  rotate_usages-Ensures [] processed n ctx w v known h =
      let counted : processed ≡ n = cc h in
      (
        omega arith,
        (tt, ([], sym (ap (λ p. p.1.rows) h) ∙ sym (append-nil w.rows), λ of. omega arith)),
      )
  rotate_usages-Ensures ((usage, key_config) ∷ rest) processed n ctx w v (configured, known) h =
      let (key, u, made, h1) = >>=-eq-ok _ _ w h in
      let made' = on_error-eq-ok (wrap usage) (gen x ctx keys_config usage) w made in
      let (here, onward, (added, is, one)) =
        gen-IsEnsured ctx usage key_config w u configured made' in
      let (count, ensures) = rotate_usages-Ensures rest (processed + 1) n ctx u v known h1 in
      (
        omega arith,
        Ensures-cons usage key_config rest w.step u.step w.rows u.rows v.rows added onward here is
            one ensures,
      )

  -- A rotation that succeeds has processed every configured usage, and left a current key of each:
  -- one that was created at a reading of the clock after the call began, or was younger than the
  -- rotation interval at such a reading. It keeps every row of the table, in its order, and behind
  -- them adds, of any usage, no more rows than the configuration has entries of that usage: at most
  -- one where the keys differ, as those of a Go map do, and none of a usage that is not configured.
  -- A rotation that does not succeed leaves the table as it was.
  pub rotate_all_sound :
      (t : Transactor) (ctx : Context) (w : World)
      → IsTransactor t
      → All (λ e. lookup e.0 keys_config ≡ some e.1) keys_config
      → (((rotate_all x keys_config t ctx w).0 ≡ ok (record { processed = length keys_config }))
          × Ensures x w.step keys_config w.rows (rotate_all x keys_config t ctx w).1.rows)
        ⊎ (((response : JwkRotateAllResponse) → (rotate_all x keys_config t ctx w).0 ≢ ok response)
            × ((rotate_all x keys_config t ctx w).1.rows ≡ w.rows))
  unfolding rotate_all
  rotate_all_sound t ctx w transactor known =
      elim (transactor.outcome ctx (rotate_usages x keys_config keys_config 0) w) [
        | inl (n, u, ran, is) ↦
            let (count, ensures) =
              rotate_usages-Ensures keys_config 0 n (record ctx { postgres = some transaction }) w u
                known ran in
            let counted : n ≡ length keys_config = omega arith in
            inl (unfold ◌>>=◌ in rw is (ap (λ m. ok (record { processed = m })) counted, ensures))
        | inr (failed, kept) ↦
            elim (Result-cases (t.within_tx ctx (rotate_usages x keys_config keys_config 0) w).0) [
              | inl (n, e) ↦ absurd (failed n e)
              | inr e ↦ inr (unfold ◌>>=◌ in (λ response h. ground arith, ground arith))
            ]
      ]
