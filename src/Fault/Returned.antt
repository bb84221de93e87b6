-- ===== src/Fault/Returned.antt =====
-- Results that are no panic.
use service_json_keys.Prelude.{◌≡◌, ◌≢◌, refl, arith, Bool, true, false, Option, none, some}
use service_json_keys.Fault.{Error, Result, ok, err, panic, map_error, or_raise, ◌>>=◌}

unfoldable pub is_returned {ℓ} : {A : Type ℓ} → Result A → Bool
is_returned (ok a) = true
is_returned (err e) = true
is_returned panic = false

-- A result that is no panic.
abbrev pub IsReturned {ℓ} : {A : Type ℓ} → Result A → Type 0
IsReturned r = is_returned r ≡ true

module _ {ℓ κ} {A : Type ℓ} {B : Type κ} where
  pub IsReturned->>= :
      (r : Result A) (f : A → Result B)
      → IsReturned r
      → ((a : A) → IsReturned (f a))
      → IsReturned (r >>= f)
  unfolding is_returned
  IsReturned->>= (ok a) f h k = k a
  IsReturned->>= (err e) f h k = refl
  IsReturned->>= panic f h k = cc

module _ {ℓ} {A : Type ℓ} where
  pub IsReturned-map_error :
      (f : Error → Error) (r : Result A) → IsReturned r → IsReturned (map_error f r)
  unfolding is_returned
  IsReturned-map_error f (ok a) h = refl
  IsReturned-map_error f (err e) h = refl
  IsReturned-map_error f panic h = cc

  pub IsReturned-or_raise : (e : Error) (o : Option A) → IsReturned (or_raise e o)
  unfolding is_returned
  IsReturned-or_raise e none = refl
  IsReturned-or_raise e (some a) = refl

  pub IsReturned-≢ : (r : Result A) → IsReturned r → r ≢ panic
  unfolding is_returned
  IsReturned-≢ r h e = ground arith
