-- ===== src/Sample.antt =====
-- Concrete outside calls and data, at which the theorems are applied and the definitions run.
mod Rotation
mod Storage
mod Transport
mod Tokens
mod Plugins
mod Clients
mod Life
mod Steady
mod Commands
mod Servers
mod Numbered
mod Deployment
mod Progress
mod Halves
mod Delivery
use service_json_keys.Prelude.{
  ℕ, ◌+◌, ◌*◌, ◌/◌, ◌≡◌, refl, true, false, not, ◌&&◌, some, none, List, [], ◌∷◌, ◌++◌, arith, ltb,
  all, drop, length, str_eq, eq_iff, String, Bool, Option, All, All-append, Bool-cases, ◌⊎◌, ◌≢◌,
  ◌-◌, inl, inr, ap, sym, subst, ◌<◌, if◌then◌else◌,
}
use service_json_keys.Fault.{Error, Result, ok, err, panic, other}
use service_json_keys.Encoding.{Bytes, IsBytes}
use service_json_keys.Clock.{Time, second}
use service_json_keys.Types.{Context, Jwk, Row, pool, transaction}
use service_json_keys.Externals.{Externals, KeyPair, IsSecretbox, IsJson, IsRandom}
use service_json_keys.Encoding.Base64
use service_json_keys.Config.{KeysConfig, auth}
use service_json_keys.World.{World}
use service_json_keys.Core.RotateAll.{Transactor, IsTransactor}

abbrev pub tag : Bytes
tag = 1 ∷ 2 ∷ 3 ∷ 4 ∷ 5 ∷ 6 ∷ 7 ∷ 8 ∷ 9 ∷ 10 ∷ 11 ∷ 12 ∷ 13 ∷ 14 ∷ 15 ∷ 16 ∷ []

abbrev pub key_as : String → Bytes → Jwk
key_as kid payload = record {
  kty = "OKP";
  use_ = "sig";
  key_ops = [];
  alg = "EdDSA";
  kid = kid;
  payload = payload;
}

abbrev pub key_of : Bytes → Jwk
key_of payload = key_as "a" payload

abbrev has_ops : List String → Bool
has_ops [] = false
has_ops (op ∷ ops) = true

abbrev pub is_key_as : String → Jwk → Bool
is_key_as kid k =
    str_eq k.kty "OKP"
    && str_eq k.use_ "sig"
    && not (has_ops k.key_ops)
    && str_eq k.alg "EdDSA"
    && str_eq k.kid kid
    && all (λ b. ltb b 256) k.payload

abbrev is_key : Jwk → Bool
is_key k = is_key_as "a" k

abbrev pub secret_key : Bytes
secret_key = 11 ∷ tag ++ 12 ∷ tag

abbrev pub nonce_bytes : Bytes
nonce_bytes = tag ++ 1 ∷ 2 ∷ 3 ∷ 4 ∷ 5 ∷ 6 ∷ 7 ∷ 8 ∷ []

-- The clock is in the year 2026, and ticks once a call; timestamps round to the second.
abbrev pub start : Time
start = 2025 * 31_556_952 * second

abbrev pub sample : Externals
sample = record {
  seal = λ nonce key message. tag ++ message;
  open_box = λ nonce key box. some (drop 16 box);
  marshal = λ k. if is_key k then ok k.payload else err (other "json");
  unmarshal = λ text. ok (some (key_of text));
  parse_uuid = λ text. if str_eq text "a" then ok 7 else err (other "invalid UUID");
  generate_ed25519 = λ n. ok (record { private = key_of (1 ∷ 2 ∷ []); public = key_of (3 ∷ []) });
  generate_ecdsa = λ preset n. err (other "unavailable");
  generate_rsa = λ preset n. err (other "unavailable");
  nonce = λ n. ok nonce_bytes;
  now = λ n. start + n * second;
  database_fault = λ n. none;
  ping_fault = λ n. none;
  stamp = λ t. (t + second / 2) / second * second;
}

pub sample-IsSecretbox : IsSecretbox sample
sample-IsSecretbox = record {
  open-seal = λ nonce key message valid. refl;
  length-seal = λ nonce key message valid. omega arith;
  seal-IsBytes =
      λ nonce key message valid. All-append (λ b. b < 256) tag message (omega arith) valid;
}

pub all_below : (bytes : Bytes) → all (λ b. ltb b 256) bytes ≡ true → IsBytes bytes
all_below [] h = tt
all_below (b ∷ bytes) h = ground (arith, all_below bytes)

pub is_key-key_as : (kid : String) (k : Jwk) → is_key_as kid k ≡ true → key_as kid k.payload ≡ k
is_key-key_as kid k h =
    ground (arith, eq_iff k.kty "OKP", eq_iff k.use_ "sig", eq_iff k.alg "EdDSA", eq_iff k.kid kid)

unmarshal-marshal_sample :
    (k : Jwk) (text : Bytes) → sample.marshal k ≡ ok text → sample.unmarshal text ≡ ok (some k)
unmarshal-marshal_sample k text h = elim (Bool-cases (is_key k)) [
  | inl e ↦
      let same : k.payload ≡ text = ground arith in
      rw (← same) (ap (λ q. ok (some q)) (is_key-key_as "a" k e))
  | inr e ↦ absurd (ground arith)
]

nonce_sample : (n : ℕ) (bytes : Bytes) → sample.nonce n ≡ ok bytes → bytes ≡ nonce_bytes
nonce_sample n bytes h = cc

pub sample-IsJson : IsJson sample
sample-IsJson = record {
  unmarshal-marshal = unmarshal-marshal_sample;
  marshal-IsBytes = λ k text h. ground (arith, all_below k.payload);
}

pub sample-IsRandom : IsRandom sample
sample-IsRandom = record {
  length-nonce = λ n bytes h. rw (nonce_sample n bytes h);
  nonce-IsBytes = λ n bytes h. subst IsBytes (sym (nonce_sample n bytes h)) (omega arith);
}

abbrev pub master_key_bytes : Bytes
master_key_bytes = tag ++ tag

abbrev pub ctx : Context
ctx = record { master_key = some master_key_bytes; postgres = some pool }

-- A key that was stored a day before `start`.
abbrev pub old_row : Row
old_row = record {
  id = 3;
  private_key = 65 ∷ 65 ∷ [];
  public_key = some (Base64.encode (5 ∷ []));
  usage = "auth";
  created_at = start - 86_400 * second;
  expires_at = start + 86_400 * second;
  deleted_at = none;
  deleted_comment = none;
}

abbrev pub empty_world : World
empty_world = record { rows = []; db_time = start; log = []; step = 0 }

abbrev pub one_key : World
one_key = record { rows = old_row ∷ []; db_time = start; log = []; step = 0 }

-- A transactor that puts the rows back unless the function succeeds.
abbrev finish_tx : World → Result ℕ × World → Result ℕ × World
finish_tx w (ok n, u) = (ok n, u)
finish_tx w (err e, u) = (err e, record u { rows = w.rows })
finish_tx w (panic, u) = (panic, record u { rows = w.rows })

abbrev pub transactor : Transactor
transactor = record {
  within_tx = λ c f w. finish_tx w (f (record c { postgres = some transaction }) w);
}

outcome_sample :
    (w : World) (r : Result ℕ × World)
    → ((n : ℕ) × (u : World) × (r ≡ (ok n, u)) × (finish_tx w r ≡ (ok n, u)))
      ⊎ (((n : ℕ) → (finish_tx w r).0 ≢ ok n) × ((finish_tx w r).1.rows ≡ w.rows))
outcome_sample w (ok n, u) = inl (n, u, refl, refl)
outcome_sample w (err e, u) = inr (λ n h. cc, refl)
outcome_sample w (panic, u) = inr (λ n h. cc, refl)

pub transactor_sample : IsTransactor transactor
transactor_sample = record {
  outcome = λ c f w. outcome_sample w (f (record c { postgres = some transaction }) w);
}

abbrev pub one_usage : KeysConfig
one_usage = ("auth", auth) ∷ []
