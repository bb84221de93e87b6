-- ===== src/Core/RotateAll/Supply.antt =====
-- What a rotation of all usages needs of the outside to succeed.
use service_json_keys.Prelude.{ℕ, ◌≤◌, ◌≡◌, true, false, Option, some, none, List, All, Listed}
use service_json_keys.Fault.{ok}
use service_json_keys.Encoding.{Bytes}
use service_json_keys.Clock.{max_int64, IsDuration}
use service_json_keys.Types.{Context, Row, Uuid, transaction}
use service_json_keys.Externals.{Externals, KeyPair}
use service_json_keys.Config.{Alg, KeysConfig}
use service_json_keys.World.{World, Exec}
use service_json_keys.Dao.Schema.{is_active, has_id}
use service_json_keys.Core.Presets.{Generated, of_pair}
use service_json_keys.Core.Presets.Laws.{IsDrawn}
use service_json_keys.Core.Gen.{encode_public}
use service_json_keys.Core.Gen.Drawing.{IsFit}
use service_json_keys.Core.Gen.Progress.{IsReadable}
use service_json_keys.Core.RotateAll.{Transactor}

-- The key can be marshalled, and its identifier is that UUID.
pub record IsNamed (x : Externals) (id : Uuid) (generated : Generated) : Type 0 where
  pub private_text : Bytes
  pub marshal_private : x.marshal generated.private_key ≡ ok private_text
  pub public_text : Option Bytes
  pub marshal_public : encode_public x generated.public_key ≡ ok public_text
  pub parsed : x.parse_uuid generated.private_kid ≡ ok id

-- The library gives a pair for the algorithm at every call, of an identifier of its own.
pub record Supplies (x : Externals) (id : ℕ → Uuid) (alg : Alg) : Type 0 where
  pub pairs : (n : ℕ) → (pair : KeyPair) × IsDrawn x alg n pair
  pub named : (n : ℕ) (pair : KeyPair) → IsDrawn x alg n pair → IsNamed x (id n) (of_pair pair)

-- What a rotation needs of the outside: a master key, a database that answers, randomness, pairs
-- for the algorithms of the usages, intervals that an int64 holds, and a clock that is past year
-- 292.
pub record CanRotate (x : Externals) (ctx : Context) (keys_config : KeysConfig) (id : ℕ → Uuid)
    : Type 0 where
  pub secret : Bytes
  pub held : ctx.master_key ≡ some secret
  pub up : (n : ℕ) → x.database_fault n ≡ none
  pub nonce : (n : ℕ) → (bytes : Bytes) × (x.nonce n ≡ ok bytes)
  pub supplies : All (λ e. Supplies x id e.1.alg) keys_config
  pub distinct : (m n : ℕ) → id m ≡ id n → m ≡ n
  pub short : All (λ e. IsDuration e.1.key.rotation) keys_config
  pub late : (n : ℕ) → max_int64 ≤ x.now n

module _ (x : Externals) (ctx : Context) (id : ℕ → Uuid) where
  -- The identifiers to come are new in the table, and every active key in it can be read.
  abbrev pub IsOpen : World → Type 0
  IsOpen w =
      ((n : ℕ) → w.step ≤ n → has_id (id n) w.rows ≡ false)
      × ((r : Row) → Listed r w.rows → is_active w.db_time r ≡ true → IsReadable x ctx r)

  pub IsFit-IsNamed :
      (generated : Generated) (n : ℕ) (rows : List Row)
      → has_id (id n) rows ≡ false
      → IsNamed x (id n) generated
      → IsFit x rows generated
  IsFit-IsNamed generated n rows fresh named = record {
    private_text = named.private_text;
    marshal_private = named.marshal_private;
    public_text = named.public_text;
    marshal_public = named.marshal_public;
    id = id n;
    parsed = named.parsed;
    fresh = fresh;
  }

-- transaction.Transactor commits what a function has done that succeeds.
pub record Commits (t : Transactor) : Type 0 where
  pub committed :
      (ctx : Context) (f : Context → Exec ℕ) (w u : World) (n : ℕ)
      → f (record ctx { postgres = some transaction }) w ≡ (ok n, u)
      → t.within_tx ctx f w ≡ (ok n, u)
