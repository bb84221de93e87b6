-- ===== src/Core/Steady.antt =====
-- Actions and results that do not panic, by the rules of the monads.
pub mod Keys
pub mod Rotation
use service_json_keys.Prelude.{
  ℕ, ◌+◌, ◌≡◌, ◌≢◌, refl, arith, Bool, true, false, Option, none, some, List, if◌then◌else◌,
}
use service_json_keys.Fault.{Error, Result, ok, err, panic, map_error, or_raise}
use service_json_keys.Fault
use service_json_keys.Fault.Returned.{is_returned, IsReturned, IsReturned-map_error}
use service_json_keys.World.{World, Exec, crash, lift, observe, on_error, continue, ◌>>=◌}

-- The action does not panic.
pub record Steady {ℓ} {A : Type ℓ} (m : Exec A) : Type ℓ where
  pub returns : (w : World) → IsReturned (m w).0

module _ {ℓ κ} {A : Type ℓ} {B : Type κ} where
  Steady-continue :
      (r : Result A) (f : A → Exec B) (w : World)
      → IsReturned r
      → ((a : A) → Steady (f a))
      → IsReturned (continue r f w).0
  unfolding is_returned
  Steady-continue (ok a) f w h k = (k a).returns w
  Steady-continue (err e) f w h k = refl
  Steady-continue panic f w h k = cc

  pub Steady->>= :
      {m : Exec A} {f : A → Exec B} → Steady m → ((a : A) → Steady (f a)) → Steady (m >>= f)
  unfolding ◌>>=◌
  Steady->>= {m = m} {f = f} h k = record {
    returns = λ w. Steady-continue (m w).0 f (m w).1 (h.returns w) k;
  }

  -- The rest of a block may use what was lifted, or read.
  pub Steady-lift->>= :
      {r : Result A} {f : A → Exec B}
      → IsReturned r
      → ((a : A) → r ≡ ok a → Steady (f a))
      → Steady (lift r >>= f)
  unfolding ◌>>=◌ is_returned
  Steady-lift->>= {r = ok a} h k = k a refl
  Steady-lift->>= {r = err e} h k = record { returns = λ w. refl }
  Steady-lift->>= {r = panic} h k = cc

  pub Steady-read->>= :
      (g : ℕ → A) (f : A → Exec B)
      → ((n : ℕ) → Steady (f (g n)))
      → Steady (observe (λ n. ok (g n)) >>= f)
  unfolding ◌>>=◌
  Steady-read->>= g f k = record {
    returns = λ w. (k w.step).returns (record w { step = w.step + 1 });
  }

module _ {ℓ} {A : Type ℓ} where
  pub Steady-lift : {r : Result A} → IsReturned r → Steady (lift r)
  Steady-lift h = record { returns = λ w. h }

  pub Steady-observe : (f : ℕ → Result A) → ((n : ℕ) → IsReturned (f n)) → Steady (observe f)
  Steady-observe f h = record { returns = λ w. h w.step }

  pub Steady-on_error : (f : Error → Error) {m : Exec A} → Steady m → Steady (on_error f m)
  Steady-on_error f {m} h = record { returns = λ w. IsReturned-map_error f (m w).0 (h.returns w) }
