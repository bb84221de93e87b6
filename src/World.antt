-- ===== src/World.antt =====
-- The state that the operations change: the table `keys`, the database's clock, the log, and the
-- number of outside calls made so far. An operation is an action `Exec A`: it gives a value, an
-- error or a panic beside the state that it leaves, which an error does not undo.
pub mod Laws
use service_json_keys.Prelude.{ℕ, ◌+◌, String, Option, none, some, List, ◌++◌, [], ◌∷◌}
use service_json_keys.Fault.{Error, Result, ok, err, panic, other, map_error}
use service_json_keys.Clock.{Time}
use service_json_keys.Types.{Row}
use service_json_keys.Externals.{Externals}

pub record World : Type 0 where
  pub rows : List Row
  -- CURRENT_TIMESTAMP, which stands still within a transaction
  pub db_time : Time
  pub log : List Error
  pub step : ℕ

abbrev pub Exec {ℓ} : Type ℓ → Type ℓ
Exec A = World → Result A × World

module _ {ℓ} {A : Type ℓ} where
  abbrev pub pure : A → Exec A
  pure a w = (ok a, w)

  abbrev pub raise : Error → Exec A
  raise e w = (err e, w)

  abbrev pub crash : Exec A
  crash w = (panic, w)

  abbrev pub lift : Result A → Exec A
  lift r w = (r, w)

  -- An answer of the outside, which the number of the call may change.
  abbrev pub observe : (ℕ → Result A) → Exec A
  observe f w = (f w.step, record w { step = w.step + 1 })

  -- `if err != nil { return nil, f(err) }` behind a call
  abbrev pub on_error : (Error → Error) → Exec A → Exec A
  on_error f m w = let (r, w') = m w in (map_error f r, w')

module _ {ℓ κ} {A : Type ℓ} {B : Type κ} where
  abbrev pub continue : Result A → (A → World → Result B × World) → World → Result B × World
  continue (ok a) f w = f a w
  continue (err e) f w = (err e, w)
  continue panic f w = (panic, w)

infixl 5 ◌>>=◌ ◌>>◌
unfoldable pub ◌>>=◌ {ℓ κ} : {A : Type ℓ} {B : Type κ} → Exec A → (A → Exec B) → Exec B
◌>>=◌ m f w = let (r, w') = m w in continue r f w'

abbrev pub ◌>>◌ {ℓ κ} : {A : Type ℓ} {B : Type κ} → Exec A → Exec B → Exec B
m >> n = m >>= λ _. n

abbrev pub log_error : Error → Exec (Unit {0})
log_error e w = (ok tt, record w { log = w.log ++ e ∷ [] })

-- One query: the server may fail, and then the table stays as it was.
unfoldable pub query {ℓ} : {A : Type ℓ} → Externals → Exec A → Exec A
query x q w = elim (x.database_fault w.step) [
  | some message ↦ (err (other message), record w { step = w.step + 1 })
  | none ↦ q (record w { step = w.step + 1 })
]
