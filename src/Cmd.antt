-- ===== src/Cmd.antt =====
-- cmd: what the commands build from the settings of the process before they serve or run.
pub mod Rest
pub mod Grpc
pub mod RotateKeys
pub mod Keys
pub mod Delivery
pub mod Healthcheck
pub mod Migrations
use Prim.Native.Char.{code}
use Prim.Native.String
use service_json_keys.Prelude.{
  String, ◌≡◌, ◌≢◌, ◌⊎◌, inl, inr, refl, Option, none, some, List, [], ◌∷◌, length, arith, ap, ◌∙◌,
}
use service_json_keys.Fault.{
  Result, ok, err, panic, wrap, sentinel, invalid_master_key, ◌>>=◌, or_raise-eq-ok,
}
use service_json_keys.Encoding.{Bytes}
use service_json_keys.Encoding.Hex
use service_json_keys.Types.{Context, pool}
use service_json_keys.Config.App.{Main, OtelConfig, PostgresConfig}
use service_json_keys.MasterKey.{new_master_key_context, master_key_context, master_key_length}
use service_json_keys.MasterKey.Laws.{new_master_key_context_sound}

-- golib: otel.Init, postgres.NewContext and postgres.TransferContext.
pub record Golib : Type 0 where
  pub init : OtelConfig → Result (Unit {0})
  pub new_context : Context → PostgresConfig → Result Context
  pub transfer_context : Context → Context → Context

-- What is relied upon of it: a new context holds the pool, a transfer takes the database of its
-- first argument, and both keep what else the context holds.
pub record IsGolib (g : Golib) : Type 0 where
  pub opened :
      (ctx ctx' : Context) (config : PostgresConfig)
      → g.new_context ctx config ≡ ok ctx'
      → (ctx'.postgres ≡ some pool) × (ctx'.master_key ≡ ctx.master_key)
  pub transferred :
      (base dest : Context)
      → ((g.transfer_context base dest).postgres ≡ base.postgres)
        × ((g.transfer_context base dest).master_key ≡ dest.master_key)

-- lo.Must
abbrev pub must {ℓ} : {A : Type ℓ} → Result A → Result A
must (ok a) = ok a
must (err e) = panic
must panic = panic

-- The bytes of a text, if it is ASCII, as a hexadecimal text is; another character is no digit.
abbrev pub codes : String → Bytes
codes String.[] = []
codes (String.◌∷◌ c s) = code c ∷ codes s

-- context.Background
abbrev pub background : Context
background = record { master_key = none; postgres = none }

-- What the three commands that hold the master key begin with.
unfoldable pub boot : Golib → Main → OtelConfig → PostgresConfig → Result Context
boot g app otel postgres = do
  started ← must (g.init otel)
  ctx ← must (new_master_key_context background (codes app.master_key))
  must (g.new_context ctx postgres)

-- To split on the outcome of a call that must succeed.
pub must-cases {ℓ} : {A : Type ℓ} (m : Result A) → (must m ≡ panic) ⊎ ((a : A) × (m ≡ ok a))
must-cases (ok a) = inr (a, refl)
must-cases (err e) = inl refl
must-cases panic = inl refl

held_key :
    (ctx : Context) (key : Bytes) → master_key_context ctx ≡ ok key → ctx.master_key ≡ some key
unfolding master_key_context
held_key ctx key found =
    or_raise-eq-ok (wrap "extract master key" (sentinel invalid_master_key)) ctx.master_key found

-- The start either panics, or gives a context that holds the pool, and the 32 bytes that the master
-- key stands for in hexadecimal; it never returns an error.
pub boot_outcome :
    (g : Golib) (app : Main) (otel : OtelConfig) (postgres : PostgresConfig)
    → IsGolib g
    → (boot g app otel postgres ≡ panic)
      ⊎ ((ctx : Context) × (key : Bytes) × (boot g app otel postgres ≡ ok ctx)
          × (Hex.decode (codes app.master_key) ≡ ok key)
          × (length key ≡ master_key_length)
          × (ctx.master_key ≡ some key)
          × (ctx.postgres ≡ some pool))
unfolding boot
boot_outcome g app otel postgres golib = elim (must-cases (g.init otel)) [
  | inl e ↦ inl (rw e)
  | inr (_, e) ↦ elim (must-cases (new_master_key_context background (codes app.master_key))) [
    | inl e1 ↦ inl (rw (e, e1))
    | inr (held, e1) ↦ elim (must-cases (g.new_context held postgres)) [
      | inl e2 ↦ inl (rw (e, e1, e2))
      | inr (ctx, e2) ↦
          let (key, read, _, sized, found, _, _, _) =
            new_master_key_context_sound background held background (codes app.master_key) e1 in
          let (opened, kept) = golib.opened held ctx postgres e2 in
          inr (ctx, key, rw (e, e1, e2), read, sized, kept ∙ held_key held key found, opened)
    ]
  ]
]
