-- ===== src/Dao/Order/Laws.antt =====
-- Sorting keeps every row, adds none, and puts the newest first.
use service_json_keys.Prelude.{
  length, suc, refl, ℕ, zero, suc, ◌≤◌, ◌≡◌, refl, inl, inr, List, [], ◌∷◌, arith, leb, leb→le,
  take, length, All, All-take, Any, Bool-cases,
}
use service_json_keys.Clock.{Time}
use service_json_keys.Types.{Row}
use service_json_keys.Dao.Order.{place, sort_newest}

-- Each row is at least as new as those behind it.
abbrev pub IsNewestFirst : List Row → Type 0
IsNewestFirst [] = Unit
IsNewestFirst (r ∷ rows) = All (λ s. s.created_at ≤ r.created_at) rows × IsNewestFirst rows

-- Placing and sorting keep every row and add none.
module _ (P : Row → Type 0) where
  All-place : (r : Row) (rows : List Row) → P r → All P rows → All P (place r rows)
  unfolding place
  All-place r [] p h = (p, tt)
  All-place r (s ∷ rows) p (q, h) = ground (arith, All-place r rows p h)

  pub All-sort_newest : (rows : List Row) → All P rows → All P (sort_newest rows)
  unfolding sort_newest
  All-sort_newest [] h = tt
  All-sort_newest (r ∷ rows) (p, h) = All-place r (sort_newest rows) p (All-sort_newest rows h)

  Any-place_here : (r : Row) (rows : List Row) → P r → Any P (place r rows)
  unfolding place
  Any-place_here r [] p = inl p
  Any-place_here r (s ∷ rows) p = elim (Bool-cases (leb s.created_at r.created_at)) [
    | inl e ↦ rw e (inl p)
    | inr e ↦ rw e (inr (Any-place_here r rows p))
  ]

  Any-place : (r : Row) (rows : List Row) → Any P rows → Any P (place r rows)
  unfolding place
  Any-place r [] h = absurd h
  Any-place r (s ∷ rows) h = elim (Bool-cases (leb s.created_at r.created_at)) [
    | inl e ↦ rw e (inr h)
    | inr e ↦ rw e (elim h [ inl p ↦ inl p | inr k ↦ inr (Any-place r rows k) ])
  ]

  pub Any-sort_newest : (rows : List Row) → Any P rows → Any P (sort_newest rows)
  unfolding sort_newest
  Any-sort_newest [] h = h
  Any-sort_newest (r ∷ rows) (inl p) = Any-place_here r (sort_newest rows) p
  Any-sort_newest (r ∷ rows) (inr h) = Any-place r (sort_newest rows) (Any-sort_newest rows h)

pub length-place : (r : Row) (rows : List Row) → length (place r rows) ≡ suc (length rows)
unfolding place
length-place r [] = refl
length-place r (s ∷ rows) = ground (arith, length-place r rows)

pub length-sort_newest : (rows : List Row) → length (sort_newest rows) ≡ length rows
unfolding sort_newest
length-sort_newest [] = refl
length-sort_newest (r ∷ rows) =
    omega (arith, length-place r (sort_newest rows), length-sort_newest rows)

All-le :
    (t u : Time) (rows : List Row)
    → u ≤ t
    → All (λ s. s.created_at ≤ u) rows
    → All (λ s. s.created_at ≤ t) rows
All-le t u [] h k = tt
All-le t u (r ∷ rows) h (p, k) = (omega arith, All-le t u rows h k)

place-IsNewestFirst :
    (r : Row) (rows : List Row) → IsNewestFirst rows → IsNewestFirst (place r rows)
unfolding place
place-IsNewestFirst r [] h = (tt, tt)
place-IsNewestFirst r (s ∷ rows) (p, h) = elim (Bool-cases (leb s.created_at r.created_at)) [
  | inl e ↦
      let newer = leb→le s.created_at r.created_at e in
      rw e ((newer, All-le r.created_at s.created_at rows newer p), (p, h))
  | inr e ↦ rw e (
    All-place (λ q. q.created_at ≤ s.created_at) r rows (ground arith) p,
    place-IsNewestFirst r rows h,
  )
]

pub sort_newest-IsNewestFirst : (rows : List Row) → IsNewestFirst (sort_newest rows)
unfolding sort_newest
sort_newest-IsNewestFirst [] = tt
sort_newest-IsNewestFirst (r ∷ rows) =
    place-IsNewestFirst r (sort_newest rows) (sort_newest-IsNewestFirst rows)

pub take-IsNewestFirst :
    (n : ℕ) (rows : List Row) → IsNewestFirst rows → IsNewestFirst (take n rows)
take-IsNewestFirst zero rows h = tt
take-IsNewestFirst (suc n) [] h = tt
take-IsNewestFirst (suc n) (r ∷ rows) (p, h) =
    (All-take (λ s. s.created_at ≤ r.created_at) n rows p, take-IsNewestFirst n rows h)
