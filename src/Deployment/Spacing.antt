-- ===== src/Deployment/Spacing.antt =====
-- Rows that were created at least a gap apart, and how many of them a window of time holds.
use service_json_keys.Prelude.{
  ℕ, ◌+◌, ◌*◌, ◌≤◌, ◌<◌, refl, String, ◌≡◌, true, List, [], ◌∷◌, ◌++◌, arith, length, str_eq,
  eq_iff, select, map, All, All-imp, All-append, Bool-cases, inl, inr,
}
use service_json_keys.Clock.{Time}
use service_json_keys.Types.{Row}
use mathlib.Core.List.{map-id}
use service_json_keys.Core.RotateAll.Idle.{is_active_before}
use service_json_keys.Dao.Schema.{is_active, active_keys}

-- A row of the usage that is active at that time.
abbrev pub Counts : String → Time → Row → Type 0
Counts usage now r = (r.usage ≡ usage) × (is_active now r ≡ true)

module _ {A : Type 0} where
  All-map :
      (f : A → A) (P Q : A → Type 0)
      → ((a : A) → P a → Q (f a))
      → (xs : List A) → All P xs
      → All Q (map f xs)
  All-map f P Q step [] h = tt
  All-map f P Q step (a ∷ xs) (p, h) = (step a p, All-map f P Q step xs h)

module _ (gap : ℕ) (usage : String) where
  -- The row counts only if it was created a gap after the first, or later.
  abbrev Follows : Time → Row → Row → Type 0
  Follows now r q = Counts usage now q → r.created_at + gap ≤ q.created_at

  -- Of two rows that count, the one that stands later in the list was created a gap after the
  -- other, or later.
  abbrev pub Spaced : Time → List Row → Type 0
  Spaced now [] = Unit
  Spaced now (r ∷ rows) = (Counts usage now r → All (Follows now r) rows) × Spaced now rows

  -- What counts in the second list under a time counts in the first, for the changed row.
  Spaced-append :
      (now : Time) (rows : List Row) (row : Row)
      → Spaced now rows
      → All
          (λ q. Counts usage now q → Counts usage now row → q.created_at + gap ≤ row.created_at)
          rows
      → Spaced now (rows ++ row ∷ [])
  Spaced-append now [] row spaced later = ((λ c. tt), tt)
  Spaced-append now (r ∷ rows) row (here, spaced) (first, later) = (
    λ c. All-append (Follows now r) rows (row ∷ []) (here c) (first c, tt),
    Spaced-append now rows row spaced later,
  )

  -- How the rows of a table of a usage with that lifetime stand at that time: apart, and each that
  -- counts expiring within the lifetime, and created before the time has gone on by the lead.
  abbrev IsDated : ℕ → ℕ → Time → Row → Type 0
  IsDated life lead now r =
      Counts usage now r → (r.expires_at ≤ r.created_at + life) × (r.created_at ≤ now + lead)

  abbrev pub Paced : ℕ → ℕ → Time → List Row → Type 0
  Paced life lead now rows = Spaced now rows × All (IsDated life lead now) rows

  Spaced-map :
      (f : Row → Row) (now later : Time)
      → ((r : Row) → Counts usage later (f r) → Counts usage now r)
      → ((r : Row) → (f r).created_at ≡ r.created_at)
      → (rows : List Row) → Spaced now rows
      → Spaced later (map f rows)
  Spaced-map f now later counted same [] spaced = tt
  Spaced-map f now later counted same (r ∷ rows) (here, spaced) = (
    λ c.
        All-map f (Follows now r) (Follows later (f r))
          (λ q after d. omega (arith, same r, same q, after (counted q d))) rows
          (here (counted r c)),
    Spaced-map f now later counted same rows spaced,
  )

  -- Rows that change without a date, and count no more than before.
  pub Paced-map :
      (f : Row → Row) (life lead : ℕ) (now later : Time)
      → now ≤ later
      → ((r : Row) → Counts usage later (f r) → Counts usage now r)
      → ((r : Row) → ((f r).created_at ≡ r.created_at) × ((f r).expires_at ≡ r.expires_at))
      → (rows : List Row) → Paced life lead now rows
      → Paced life lead later (map f rows)
  Paced-map f life lead now later onward counted same rows (spaced, dated) = (
    Spaced-map f now later counted (λ r. (same r).0) rows spaced,
    All-map f (IsDated life lead now) (IsDated life lead later)
        (λ r dates c.
          let (short, early) = dates (counted r c) in
          (omega (arith, same r), omega (arith, same r)))
        rows dated,
  )

  -- The rows that count, each created `low` less the lifetime or later, and by the limit.
  count_bound :
      (now limit life : ℕ) (rows : List Row)
      → Spaced now rows
      → All (λ r. Counts usage now r → r.created_at ≤ limit) rows
      → (low : ℕ) → low ≤ limit + gap + life
      → All (λ r. Counts usage now r → low ≤ r.created_at + life) rows
      → low + length (select (λ r. str_eq r.usage usage) (active_keys now rows)) * gap
        ≤ limit + gap + life
  unfolding active_keys
  count_bound now limit life [] spaced within low start above = omega arith
  count_bound now limit life (r ∷ rows) (here, spaced) (inside, within) low start (over, above) =
      let skipped = count_bound now limit life rows spaced within low start above in
      elim (Bool-cases (is_active now r)) [
        | inr gone ↦ rw gone skipped
        | inl active ↦ elim (Bool-cases (str_eq r.usage usage)) [
          | inr other ↦ rw (active, other) skipped
          | inl same ↦
              let counts : Counts usage now r = ((eq_iff r.usage usage).0 same, active) in
              let next = r.created_at + gap + life in
              let rest =
                count_bound now limit life rows spaced within next (omega (arith, inside counts))
                  (All-imp (λ q after d. omega (arith, after d)) rows (here counts)) in
              rw (active, same) (omega (arith, over counts, rest))
        ]
      ]

  Counts-before :
      (now later : Time) (r : Row) → now ≤ later → Counts usage later r → Counts usage now r
  Counts-before now later r onward (same, active) =
      (same, is_active_before now later r onward active)

  pub Paced-later :
      (life lead : ℕ) (now later : Time) (rows : List Row)
      → now ≤ later
      → Paced life lead now rows
      → Paced life lead later rows
  Paced-later life lead now later rows onward paced = rw (← map-id rows) (
      Paced-map (λ r. r) life lead now later onward (λ r. Counts-before now later r onward)
        (λ r. (refl, refl)) rows paced)

  pub Paced-append :
      (life lead : ℕ) (now later : Time) (rows : List Row) (row : Row)
      → now ≤ later
      → Paced life lead now rows
      → IsDated life lead later row
      → All
          (λ q. Counts usage now q → Counts usage later row → q.created_at + gap ≤ row.created_at)
          rows
      → Paced life lead later (rows ++ row ∷ [])
  Paced-append life lead now later rows row onward paced dates apart =
      let (spaced, dated) = Paced-later life lead now later rows onward paced in
      (
        Spaced-append later rows row spaced
            (All-imp (λ q after c d. after (Counts-before now later q onward c) d) rows apart),
        All-append (IsDated life lead later) rows (row ∷ []) dated (dates, tt),
      )

  -- At a spacing of `gap`, the active rows of the usage are few.
  pub Paced-bound :
      (life lead : ℕ) (now : Time) (rows : List Row)
      → 0 < lead
      → Paced life lead now rows
      → length (select (λ r. str_eq r.usage usage) (active_keys now rows)) * gap < life + lead + gap
  unfolding is_active
  Paced-bound life lead now rows ahead (spaced, dated) =
      let bound =
        count_bound now (now + lead) life rows spaced
          (All-imp (λ r dates c. (dates c).1) rows dated) (now + 1) (omega arith)
          (All-imp (λ r dates c. ground (arith, (dates c).0, c.1)) rows dated) in
      omega (arith, bound)
