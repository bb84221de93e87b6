-- ===== src/Encoding/Hex.antt =====
-- encoding/hex.DecodeString of the Go standard library, which internal/lib/masterKeyContext.go
-- reads the master key with: two digits a byte, in either case.
pub mod Laws
use service_json_keys.Prelude.{
  ℕ, ◌+◌, ◌-◌, ◌*◌, ◌&&◌, Option, none, some, [], ◌∷◌, leb, if◌then◌else◌,
}
use service_json_keys.Fault.{Error, Result, ok, err, other, ◌>>=◌}
use service_json_keys.Encoding.Octets.{Bytes}

pub digit_value : ℕ → Option ℕ
digit_value c =
    if leb 48 c && leb c 57
    then some (c - 48)
    else if leb 97 c && leb c 102
    then some (c - 87)
    else if leb 65 c && leb c 70
    then some (c - 55)
    else none

abbrev pub invalid_byte : Error
invalid_byte = other "encoding/hex: invalid byte"

abbrev pub odd_length : Error
odd_length = other "encoding/hex: odd length hex string"

-- A pair of digits, the first one tested first.
pub byte : ℕ → ℕ → Result ℕ
byte c d = elim (digit_value c) [
  | none ↦ err invalid_byte
  | some a ↦ elim (digit_value d) [ none ↦ err invalid_byte | some b ↦ ok (a * 16 + b) ]
]

unfoldable pub decode : Bytes → Result Bytes
unfolding byte digit_value
decode [] = ok []
decode (c ∷ []) = elim (digit_value c) [ none ↦ err invalid_byte | some a ↦ err odd_length ]
decode (c ∷ d ∷ rest) =
    let later = decode rest in byte c d >>= λ b. later >>= λ bytes. ok (b ∷ bytes)
