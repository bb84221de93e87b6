-- ===== src/Sample/Rotation.antt =====
-- Key generation, rotation and encryption at concrete inputs.
use service_json_keys.Prelude.{ℕ, zero, suc, ◌≡◌, ◌≢◌, ◌⊎◌, refl, some, [], ◌∷◌, ◌++◌}
use service_json_keys.Fault.{Result, ok, err}
use service_json_keys.Encoding.{Bytes}
use service_json_keys.Encoding.Base64
use service_json_keys.Encoding.Hex
use service_json_keys.Clock.{sub}
use service_json_keys.Types.{Context, Row}
use service_json_keys.Config.{lookup, auth}
use service_json_keys.World.{World, ◌>>=◌, query}
use service_json_keys.Dao
use service_json_keys.Dao.Order.{place, sort_newest}
use service_json_keys.Dao.Schema.{is_active, active_keys, has_id, conflicts}
use service_json_keys.MasterKey.{encrypt_master_key, decrypt_master_key, new_master_key_context}
use service_json_keys.MasterKey.Laws.{decrypt-encrypt}
use service_json_keys.Core.Presets.{jwk_generators, jwk_generator_ed25519}
use service_json_keys.Core.Extract.{extract}
use service_json_keys.Core.Gen.{gen, generate, last_created}
use service_json_keys.Core.Gen.Generate.{IsMadeBefore, generate-Made}
use service_json_keys.Core.Gen.Rotation.{Kept, Rotated, gen_sound}
use service_json_keys.Core.RotateAll.{JwkRotateAllResponse, rotate_all, rotate_usages}
use service_json_keys.Core.RotateAll.Laws.{Ensures, rotate_all_sound}
use service_json_keys.Sample.{
  sample, sample-IsSecretbox, sample-IsJson, sample-IsRandom, key_of, ctx, one_key, one_usage,
  transactor, transactor_sample, tag, nonce_bytes, old_row,
}

rotation_runs :
    (rotate_all sample one_usage transactor ctx one_key).0 ≡ ok (record { processed = 1 })
unfolding rotate_all rotate_usages gen generate ◌>>=◌ Dao.search Dao.insert query active_keys
    is_active place sort_newest last_created lookup jwk_generators jwk_generator_ed25519
    encrypt_master_key decrypt_master_key Base64.encode Base64.decode conflicts has_id extract sub
rotation_runs = refl

rotate_all_sound_example :
    (((rotate_all sample one_usage transactor ctx one_key).0 ≡ ok (record { processed = 1 }))
      × Ensures sample 0 one_usage one_key.rows
          (rotate_all sample one_usage transactor ctx one_key).1.rows)
    ⊎ (((response : JwkRotateAllResponse)
          → (rotate_all sample one_usage transactor ctx one_key).0 ≢ ok response)
        × ((rotate_all sample one_usage transactor ctx one_key).1.rows ≡ one_key.rows))
unfolding lookup
rotate_all_sound_example =
    rotate_all_sound sample one_usage sample-IsSecretbox sample-IsJson sample-IsRandom transactor
      ctx one_key transactor_sample (refl, tt)

abbrev after_gen : World
after_gen = (gen sample ctx one_usage "auth" one_key).1

gen_runs : gen sample ctx one_usage "auth" one_key ≡ (ok (some (key_of (1 ∷ 2 ∷ []))), after_gen)
unfolding gen generate ◌>>=◌ Dao.search Dao.insert query active_keys is_active place sort_newest
    last_created lookup jwk_generators jwk_generator_ed25519 encrypt_master_key decrypt_master_key
    Base64.encode Base64.decode conflicts has_id extract sub
gen_runs = refl

gen_sound_example :
    Kept sample ctx auth "auth" one_key after_gen (some (key_of (1 ∷ 2 ∷ [])))
    ⊎ Rotated sample ctx auth "auth" one_key after_gen (some (key_of (1 ∷ 2 ∷ [])))
unfolding lookup
gen_sound_example =
    gen_sound sample ctx one_usage auth "auth" one_key after_gen (some (key_of (1 ∷ 2 ∷ [])))
      sample-IsSecretbox sample-IsJson sample-IsRandom refl gen_runs

abbrev sealed : Bytes
sealed = nonce_bytes ++ tag ++ 9 ∷ []

abbrev after_encrypt : World
after_encrypt = record one_key { step = 1 }

encrypt_runs : encrypt_master_key sample ctx (key_of (9 ∷ [])) one_key ≡ (ok sealed, after_encrypt)
unfolding encrypt_master_key
encrypt_runs = refl

decrypt-encrypt_example : decrypt_master_key sample ctx sealed ≡ ok (some (key_of (9 ∷ [])))
unfolding encrypt_master_key
decrypt-encrypt_example =
    decrypt-encrypt sample ctx (key_of (9 ∷ [])) one_key after_encrypt sealed sample-IsSecretbox
      sample-IsJson sample-IsRandom refl

abbrev row_or_old : Result Row → Row
row_or_old (ok row) = row
row_or_old _ = old_row

abbrev made_row : Row
made_row = row_or_old (generate sample ctx auth "auth" one_key).0

abbrev after_generate : World
after_generate = (generate sample ctx auth "auth" one_key).1

generate_runs : generate sample ctx auth "auth" one_key ≡ (ok made_row, after_generate)
unfolding generate ◌>>=◌ Dao.insert query jwk_generators jwk_generator_ed25519 encrypt_master_key
    Base64.encode conflicts has_id
generate_runs = refl

generate-Made_example :
    IsMadeBefore sample ctx auth "auth" 0 after_generate.step made_row
    × (after_generate.rows ≡ one_key.rows ++ made_row ∷ [])
generate-Made_example =
    generate-Made sample ctx auth "auth" one_key after_generate made_row sample-IsSecretbox
      sample-IsJson sample-IsRandom generate_runs

-- Sixty-four zeros.
abbrev zeros : ℕ → Bytes
zeros zero = []
zeros (suc n) = 48 ∷ 48 ∷ zeros n

abbrev null_bytes : ℕ → Bytes
null_bytes zero = []
null_bytes (suc n) = 0 ∷ null_bytes n

abbrev keyed : Context
keyed = record ctx { master_key = some (null_bytes 32) }

context_runs : new_master_key_context ctx (zeros 32) ≡ ok keyed
unfolding new_master_key_context Hex.decode
context_runs = refl

short_runs : Hex.decode (zeros 31) ≡ ok (null_bytes 31)
unfolding Hex.decode
short_runs = refl

padded : Base64.decode (65 ∷ 61 ∷ []) ≡ err Base64.corrupt_input
unfolding Base64.decode
padded = refl

text_runs : Base64.decode (65 ∷ 10 ∷ 81 ∷ []) ≡ ok (1 ∷ [])
unfolding Base64.decode
text_runs = refl
