-- ===== src/Core/Gen/Runs.antt =====
-- Actions that give a value, by the rules of the monad.
use service_json_keys.Prelude.{◌≡◌}
use service_json_keys.Fault.{Error, Result, ok}
use service_json_keys.World.{World, Exec, lift, on_error, ◌>>=◌}

-- The action gives a value, of which, with the state that it leaves, the predicate holds.
pub record Runs {A : Type 0} (m : Exec A) (w : World) (P : A → World → Type 0) : Type 0 where
  pub value : A
  pub after : World
  pub ran : m w ≡ (ok value, after)
  pub holds : P value after

module _ {A : Type 0} {P : A → World → Type 0} where
  pub Runs-result : (m : Exec A) (w : World) (a : A) → (m w).0 ≡ ok a → P a (m w).1 → Runs m w P
  Runs-result m w a e p = record {
    value = a;
    after = (m w).1;
    ran = λ i. (e i, (m w).1);
    holds = p;
  }

  pub Runs-lift : {r : Result A} {w : World} (a : A) → r ≡ ok a → P a w → Runs (lift r) w P
  Runs-lift {w = w} a e p = record { value = a; after = w; ran = λ i. (e i, w); holds = p }

  pub Runs-on_error :
      (f : Error → Error) {m : Exec A} {w : World} → Runs m w P → Runs (on_error f m) w P
  Runs-on_error f r = record { value = r.value; after = r.after; ran = rw r.ran; holds = r.holds }

  pub Runs->>= :
      {B : Type 0} {m : Exec A} {f : A → Exec B} {w : World} {Q : B → World → Type 0}
      → Runs m w P
      → ((a : A) (v : World) → m w ≡ (ok a, v) → P a v → Runs (f a) v Q)
      → Runs (m >>= f) w Q
  unfolding ◌>>=◌
  Runs->>= r next =
      let rest = next r.value r.after r.ran r.holds in
      record { value = rest.value; after = rest.after; ran = rw r.ran rest.ran; holds = rest.holds }
