-- ===== src/Sample/Steady.antt =====
-- A rotation that returns, and one that has nothing to do, at concrete inputs.
use service_json_keys.Prelude.{◌≡◌, ◌≢◌, refl, inl, inr, Option, some, [], ◌∷◌, ◌++◌, All, arith}
use service_json_keys.Fault.{ok, panic}
use service_json_keys.Fault.Returned.{is_returned}
use service_json_keys.Clock.{sub}
use service_json_keys.Types.{Row, Jwk, pool}
use service_json_keys.Encoding.Base64
use service_json_keys.Config.{auth, ed_dsa, lookup}
use service_json_keys.World.{World, ◌>>=◌, query}
use service_json_keys.Dao
use service_json_keys.Dao.Order.{place, sort_newest}
use service_json_keys.Dao.Schema.{is_active, active_keys, has_id}
use service_json_keys.MasterKey.{decrypt_master_key}
use service_json_keys.Core.Extract.{extract}
use service_json_keys.Core.Gen.{gen, last_created}
use service_json_keys.Core.RotateAll.{rotate_all, rotate_usages}
use service_json_keys.Core.RotateAll.Idle.{IsFresh, rotate_all_idle}
use service_json_keys.Core.Steady.Keys.{IsCalm}
use service_json_keys.Core.Steady.Rotation.{rotation_returns}
use service_json_keys.Core.Presets.{of_pair}
use service_json_keys.Core.Gen.Drawing.{IsFit, CanGenerate}
use service_json_keys.Core.Gen.Progress.{IsDue, gen_due}
use service_json_keys.Core.Gen.Rotation.{Rotated}
use service_json_keys.Sample.{
  key_of, master_key_bytes, sample, sample-IsSecretbox, sample-IsJson, sample-IsRandom, ctx,
  old_row, one_key, one_usage, transactor, transactor_sample, start, nonce_bytes, tag,
}

sample-IsCalm : IsCalm sample
unfolding is_returned
sample-IsCalm = record {
  marshal = λ k. ground arith;
  unmarshal = λ text. refl;
  parse_uuid = λ text. ground arith;
  generate_ed25519 = λ n. refl;
  generate_ecdsa = λ preset n. refl;
  generate_rsa = λ preset n. refl;
  nonce = λ n. refl;
}

rotation_returns_example :
    ((gen sample ctx one_usage "auth" one_key).0 ≢ panic)
    × ((rotate_usages sample one_usage one_usage 0 ctx one_key).0 ≢ panic)
rotation_returns_example =
    rotation_returns sample ctx one_usage "auth" one_key sample-IsCalm (omega arith, tt)
      (λ n. omega arith)

-- A key of this very moment.
abbrev young_row : Row
young_row = record old_row {
  created_at = start;
  private_key = Base64.encode (nonce_bytes ++ tag ++ 9 ∷ []);
}

abbrev young : World
young = record one_key { rows = young_row ∷ [] }

idle_runs : (rotate_all sample one_usage transactor ctx young).1 ≡ record young { step = 2 }
unfolding rotate_all rotate_usages ◌>>=◌ gen last_created lookup Dao.search query active_keys
    is_active place sort_newest extract decrypt_master_key Base64.decode Base64.encode sub
idle_runs = refl

young-IsFresh :
    All (IsFresh sample young (rotate_all sample one_usage transactor ctx young).1) one_usage
unfolding is_active sub
young-IsFresh = rw idle_runs ((young_row, refl, inl refl, refl, λ n after before. ground arith), tt)

rotate_all_idle_example : (rotate_all sample one_usage transactor ctx young).1.rows ≡ young.rows
unfolding lookup
rotate_all_idle_example =
    rotate_all_idle sample one_usage sample-IsSecretbox sample-IsJson sample-IsRandom transactor ctx
      young transactor_sample (refl, tt) young-IsFresh

pair-IsFit :
    IsFit sample one_key.rows
      (of_pair (record { private = key_of (1 ∷ 2 ∷ []); public = key_of (3 ∷ []) }))
unfolding has_id
pair-IsFit = record {
  private_text = 1 ∷ 2 ∷ [];
  marshal_private = refl;
  public_text = some (Base64.encode (3 ∷ []));
  marshal_public = refl;
  id = 7;
  parsed = refl;
  fresh = refl;
}

able : CanGenerate sample ctx ed_dsa 0 one_key.rows
able = record {
  secret = master_key_bytes;
  held = refl;
  handle = pool;
  connected = refl;
  up = λ n. refl;
  nonce = λ n. (nonce_bytes, refl);
  draws = λ n late.
      (record { private = key_of (1 ∷ 2 ∷ []); public = key_of (3 ∷ []) }, refl, pair-IsFit);
}

old-IsDue : IsDue sample ctx auth "auth" one_key
unfolding sub
old-IsDue n r onward (of_usage, active, inl same) = rw (← same) (ground arith)
old-IsDue n r onward (of_usage, active, inr h) = elim h [ ]

gen_due_example :
    (key : Option Jwk) × (v : World) × (gen sample ctx one_usage "auth" one_key ≡ (ok key, v))
    × Rotated sample ctx auth "auth" one_key v key
unfolding lookup
gen_due_example =
    gen_due sample ctx auth "auth" one_usage one_key sample-IsSecretbox sample-IsJson
      sample-IsRandom refl able (omega arith) (λ n. omega arith) old-IsDue
