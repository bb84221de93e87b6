-- ===== src/Prelude/Lists.antt =====
-- Lists over the native numbers, under the library's names, and predicates on lists by recursion.
use Prim.Native.Nat.{ℕ, zero, suc, ◌+◌, ◌≤◌, ◌<◌, min}
use mathlib.Core.Path.{◌≡◌, refl, ap, subst, ◌∙◌}
use mathlib.Core.Logic.{◌⊎◌, inl, inr}
use mathlib.Core.Bool.{Bool, true, ◌&&◌}
use mathlib.Core.List.{List, [], ◌∷◌, ◌++◌}
use mathlib.Core.Option.{Option, none, some}
use native.Mathlib.Omega.{arith}
use service_json_keys.Prelude.Tests.{Bool-cases, if◌then◌else◌}

module _ {ℓ} {A : Type ℓ} where
  abbrev pub length : List A → ℕ
  length [] = 0
  length (x ∷ xs) = suc (length xs)

  abbrev pub take : ℕ → List A → List A
  take zero xs = []
  take (suc n) [] = []
  take (suc n) (x ∷ xs) = x ∷ take n xs

  abbrev pub drop : ℕ → List A → List A
  drop zero xs = xs
  drop (suc n) [] = []
  drop (suc n) (x ∷ xs) = drop n xs

  abbrev pub head? : List A → Option A
  head? [] = none
  head? (x ∷ xs) = some x

  -- The elements that pass a Boolean test, in their order.
  abbrev pub select : (A → Bool) → List A → List A
  select p [] = []
  select p (x ∷ xs) = if p x then x ∷ select p xs else select p xs

  abbrev pub all : (A → Bool) → List A → Bool
  all p [] = true
  all p (x ∷ xs) = p x && all p xs

  pub List-cases : (xs : List A) → (xs ≡ []) ⊎ ((y : A) × (ys : List A) × (xs ≡ y ∷ ys))
  List-cases [] = inl refl
  List-cases (x ∷ xs) = inr (x, xs, refl)

  pub length-append : (xs ys : List A) → length (xs ++ ys) ≡ length xs + length ys
  length-append [] ys = omega arith
  length-append (x ∷ xs) ys = omega (arith, length-append xs ys)

  pub length-take : (n : ℕ) (xs : List A) → length (take n xs) ≡ min n (length xs)
  length-take zero xs = omega arith
  length-take (suc n) [] = omega arith
  length-take (suc n) (x ∷ xs) = omega (arith, length-take n xs)

  pub take-append : (xs ys : List A) → take (length xs) (xs ++ ys) ≡ xs
  take-append [] ys = refl
  take-append (x ∷ xs) ys = ap (λ r. x ∷ r) (take-append xs ys)

  pub drop-append : (xs ys : List A) → drop (length xs) (xs ++ ys) ≡ ys
  drop-append [] ys = refl
  drop-append (x ∷ xs) ys = drop-append xs ys

  pub take_all : (n : ℕ) (xs : List A) → length xs ≤ n → take n xs ≡ xs
  take_all zero [] h = refl
  take_all zero (x ∷ xs) h = absurd (omega arith)
  take_all (suc n) [] h = refl
  take_all (suc n) (x ∷ xs) h = ap (λ r. x ∷ r) (take_all n xs (omega arith))

  -- A list that a cut leaves shorter than the cut was not cut.
  pub take_all-of_lt : (n : ℕ) (xs : List A) → length (take n xs) < n → take n xs ≡ xs
  take_all-of_lt n xs h = take_all n xs (omega (arith, length-take n xs))

  pub select-append :
      (p : A → Bool) (xs ys : List A) → select p (xs ++ ys) ≡ select p xs ++ select p ys
  select-append p [] ys = refl
  select-append p (x ∷ xs) ys = ground (arith, select-append p xs ys)

module _ {ℓ κ} {A : Type ℓ} where
  -- Every element satisfies the predicate.
  abbrev pub All : (A → Type κ) → List A → Type κ
  All P [] = Unit
  All P (x ∷ xs) = P x × All P xs

  pub All-append : (P : A → Type κ) (xs ys : List A) → All P xs → All P ys → All P (xs ++ ys)
  All-append P [] ys h k = k
  All-append P (x ∷ xs) ys (p, h) k = (p, All-append P xs ys h k)

  pub All-take : (P : A → Type κ) (n : ℕ) (xs : List A) → All P xs → All P (take n xs)
  All-take P zero xs h = tt
  All-take P (suc n) [] h = tt
  All-take P (suc n) (x ∷ xs) (p, h) = (p, All-take P n xs h)

  pub All-imp : {P Q : A → Type κ} (f : (x : A) → P x → Q x) (xs : List A) → All P xs → All Q xs
  All-imp f [] h = tt
  All-imp f (x ∷ xs) (p, h) = (f x p, All-imp f xs h)

module _ {ℓ} {A : Type ℓ} where
  pub All-select :
      (P : A → Type 0) (p : A → Bool) (xs : List A)
      → All P xs
      → All (λ x. P x × (p x ≡ true)) (select p xs)
  All-select P p [] h = tt
  All-select P p (x ∷ xs) (q, h) = elim (Bool-cases (p x)) [
    | inl e ↦ rw e ((q, e), All-select P p xs h)
    | inr e ↦ rw e (All-select P p xs h)
  ]

module _ {ℓ} {A : Type ℓ} where
  -- Some element satisfies the predicate, and which one.
  abbrev pub Any : (A → Type 0) → List A → Type 0
  Any P [] = ⊥
  Any P (x ∷ xs) = P x ⊎ Any P xs

  pub Any-append_right : (P : A → Type 0) (xs ys : List A) → Any P ys → Any P (xs ++ ys)
  Any-append_right P [] ys h = h
  Any-append_right P (x ∷ xs) ys h = inr (Any-append_right P xs ys h)

  pub Any-append_left : (P : A → Type 0) (xs ys : List A) → Any P xs → Any P (xs ++ ys)
  Any-append_left P [] ys h = absurd h
  Any-append_left P (x ∷ xs) ys (inl p) = inl p
  Any-append_left P (x ∷ xs) ys (inr h) = inr (Any-append_left P xs ys h)

module _ {ℓ} {A : Type ℓ} where
  pub Any-append_cases : (P : A → Type 0) (xs ys : List A) → Any P (xs ++ ys) → Any P xs ⊎ Any P ys
  Any-append_cases P [] ys h = inr h
  Any-append_cases P (x ∷ xs) ys (inl p) = inl (inl p)
  Any-append_cases P (x ∷ xs) ys (inr h) = elim (Any-append_cases P xs ys h) [
    | inl k ↦ inl (inr k)
    | inr k ↦ inr k
  ]

module _ {A : Type 0} where
  -- The element stands in the list.
  abbrev pub Listed : A → List A → Type 0
  Listed a xs = Any (λ x. x ≡ a) xs

  pub All-Listed : (xs : List A) → All (λ x. Listed x xs) xs
  All-Listed [] = tt
  All-Listed (x ∷ xs) = (inl refl, All-imp (λ y h. inr h) xs (All-Listed xs))

  pub All-at : (P : A → Type 0) (a : A) (xs : List A) → All P xs → Listed a xs → P a
  All-at P a [] h k = elim k [ ]
  All-at P a (x ∷ xs) (p, h) (inl e) = subst P e p
  All-at P a (x ∷ xs) (p, h) (inr k) = All-at P a xs h k

  pub Listed-select :
      (p : A → Bool) (a : A) (xs : List A) → Listed a xs → p a ≡ true → Listed a (select p xs)
  Listed-select p a [] h t = elim h [ ]
  Listed-select p a (x ∷ xs) (inl e) t = rw (ap p e ∙ t) (inl e)
  Listed-select p a (x ∷ xs) (inr h) t = elim (Bool-cases (p x)) [
    | inl e ↦ rw e (inr (Listed-select p a xs h t))
    | inr e ↦ rw e (Listed-select p a xs h t)
  ]

module _ {ℓ} {A : Type ℓ} where
  -- The lists have one length, and the relation holds at each place.
  abbrev pub Each : (A → A → Type 0) → List A → List A → Type 0
  Each R [] [] = Unit
  Each R (x ∷ xs) (y ∷ ys) = R x y × Each R xs ys
  Each R _ _ = ⊥
