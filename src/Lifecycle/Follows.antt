-- ===== src/Lifecycle/Follows.antt =====
-- Actions that change the table by moves only, by the rules of the monad.
use service_json_keys.Prelude.{ℕ, ◌≡◌, refl, Bool, true, false, arith, if◌then◌else◌}
use service_json_keys.Fault.{Error, Result, ok, err, panic}
use service_json_keys.Externals.{Externals}
use service_json_keys.World.{World, Exec, crash, lift, observe, on_error, continue, ◌>>=◌}
use service_json_keys.Lifecycle.{idle, Reach, here, once, Reach-trans}

-- The action reaches its final table by moves, whatever its outcome is.
pub record Follows {ℓ} {A : Type ℓ} (x : Externals) (m : Exec A) : Type ℓ where
  pub moves : (w : World) → Reach x w (m w).1

-- A move that leaves the table and the clock as they were.
pub still : {x : Externals} {w v : World} → v.rows ≡ w.rows → v.db_time ≡ w.db_time → Reach x w v
still same stopped = once (idle same (omega (arith, stopped)))

module _ {x : Externals} where
  pub Follows-continue {ℓ κ} :
      {A : Type ℓ} {B : Type κ} (r : Result A) (f : A → Exec B) (w : World)
      → ((a : A) → Follows x (f a))
      → Reach x w (continue r f w).1
  Follows-continue (ok a) f w h = (h a).moves w
  Follows-continue (err e) f w h = here
  Follows-continue panic f w h = here

  pub Follows->>= {ℓ κ} :
      {A : Type ℓ} {B : Type κ} {m : Exec A} {f : A → Exec B}
      → Follows x m
      → ((a : A) → Follows x (f a))
      → Follows x (m >>= f)
  unfolding ◌>>=◌
  Follows->>= {m = m} {f = f} h k = record {
    moves = λ w. Reach-trans (h.moves w) (Follows-continue (m w).0 f (m w).1 k);
  }

  pub Follows-lift {ℓ} : {A : Type ℓ} {r : Result A} → Follows x (lift r)
  Follows-lift = record { moves = λ w. here }

  -- The rest of a block may use what was lifted.
  pub Follows-lift->>= {ℓ κ} :
      {A : Type ℓ} {B : Type κ} {r : Result A} {f : A → Exec B}
      → ((a : A) → r ≡ ok a → Follows x (f a))
      → Follows x (lift r >>= f)
  unfolding ◌>>=◌
  Follows-lift->>= {r = ok a} h = h a refl
  Follows-lift->>= {r = err e} h = record { moves = λ w. here }
  Follows-lift->>= {r = panic} h = record { moves = λ w. here }

  pub Follows-crash {ℓ} : {A : Type ℓ} → Follows x (crash {A = A})
  Follows-crash = record { moves = λ w. here }

  pub Follows-observe {ℓ} : {A : Type ℓ} (f : ℕ → Result A) → Follows x (observe f)
  Follows-observe f = record { moves = λ w. still refl refl }

  pub Follows-on_error {ℓ} :
      {A : Type ℓ} (f : Error → Error) {m : Exec A} → Follows x m → Follows x (on_error f m)
  Follows-on_error f h = record { moves = λ w. h.moves w }

  pub Follows-if {ℓ} :
      {A : Type ℓ} (b : Bool) {m n : Exec A}
      → Follows x m
      → Follows x n
      → Follows x (if b then m else n)
  Follows-if true h k = h
  Follows-if false h k = k
