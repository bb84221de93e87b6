-- ===== src/Sample/Numbered.antt =====
-- Outside calls that give a key of another identifier at each call: the identifier of a key is the
-- length of its name, and of its payload.
use Prim.Native.String.{count, ◌∷◌ as ◌∷ₛ◌}
use text.Mathlib.TextLemmas.{length-nil, length-cons}
use service_json_keys.Prelude.{
  ℕ, zero, suc, ◌≡◌, refl, ap, ◌∙◌, Bool, [], ◌∷◌, arith, String, length, if◌then◌else◌, Bool-cases,
  inl, inr, some,
}
use service_json_keys.Fault.{ok, err, other}
use service_json_keys.Encoding.{Bytes}
use service_json_keys.Types.{Jwk}
use service_json_keys.Externals.{Externals, KeyPair, IsSecretbox, IsJson, IsRandom}
use service_json_keys.Sample.{
  sample, sample-IsSecretbox, sample-IsRandom, is_key_as, key_as, is_key-key_as, all_below,
}

abbrev pub tally : ℕ → String
tally zero = ""
tally (suc n) = "a" ∷ₛ tally n

pub count-tally : (n : ℕ) → count (tally n) ≡ n
count-tally zero = length-nil
count-tally (suc n) = length-cons "a" (tally n) ∙ ap suc (count-tally n)

abbrev pub repeat : ℕ → ℕ → Bytes
repeat zero b = []
repeat (suc n) b = b ∷ repeat n b

pub length-repeat : (n b : ℕ) → length (repeat n b) ≡ n
length-repeat zero b = refl
length-repeat (suc n) b = ap suc (length-repeat n b)

abbrev pub numbered_key : Bytes → Jwk
numbered_key payload = key_as (tally (length payload)) payload

abbrev is_numbered : Jwk → Bool
is_numbered k = is_key_as (tally (length k.payload)) k

abbrev pub numbered_pair : ℕ → KeyPair
numbered_pair n = record { private = numbered_key (repeat n 1); public = numbered_key (repeat n 2) }

abbrev pub numbered : Externals
numbered = record sample {
  marshal = λ k. if is_numbered k then ok k.payload else err (other "json");
  unmarshal = λ text. ok (some (numbered_key text));
  parse_uuid = λ text. ok (count text);
  generate_ed25519 = λ n. ok (numbered_pair n);
}

pub numbered-IsSecretbox : IsSecretbox numbered
numbered-IsSecretbox = record {
  open-seal = sample-IsSecretbox.open-seal;
  length-seal = sample-IsSecretbox.length-seal;
  seal-IsBytes = sample-IsSecretbox.seal-IsBytes;
}

pub numbered-IsRandom : IsRandom numbered
numbered-IsRandom = record {
  length-nonce = sample-IsRandom.length-nonce;
  nonce-IsBytes = sample-IsRandom.nonce-IsBytes;
}

unmarshal-marshal_numbered :
    (k : Jwk) (text : Bytes) → numbered.marshal k ≡ ok text → numbered.unmarshal text ≡ ok (some k)
unmarshal-marshal_numbered k text h = elim (Bool-cases (is_numbered k)) [
  | inl e ↦
      let same : k.payload ≡ text = ground arith in
      rw (← same) (ap (λ q. ok (some q)) (is_key-key_as (tally (length k.payload)) k e))
  | inr e ↦ absurd (ground arith)
]

pub numbered-IsJson : IsJson numbered
numbered-IsJson = record {
  unmarshal-marshal = unmarshal-marshal_numbered;
  marshal-IsBytes = λ k text h. ground (arith, all_below k.payload);
}
