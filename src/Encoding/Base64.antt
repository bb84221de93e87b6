-- ===== src/Encoding/Base64.antt =====
-- base64.RawURLEncoding of the Go standard library, which internal/core/jwkGen.go encodes with and
-- internal/core/jwkExtract.go decodes with: the URL alphabet, no padding, line breaks skipped when
-- decoding, left-over bits of the last digit ignored.
pub mod Laws
use service_json_keys.Prelude.{
  ℕ, ◌+◌, ◌-◌, ◌*◌, ◌/◌, ◌%◌, Bool, ◌&&◌, ◌||◌, not, Option, none, some, List, [], ◌∷◌, map, ltb,
  leb, ◌==◌, if◌then◌else◌, select,
}
use service_json_keys.Fault.{Error, Result, ok, err, other, ◌>>=◌}
use service_json_keys.Encoding.Octets.{Bytes}

-- The character of a six-bit digit: A-Z, a-z, 0-9, '-', '_'.
pub digit : ℕ → ℕ
digit n =
    if ltb n 26
    then n + 65
    else if ltb n 52
    then n + 71
    else if ltb n 62
    then n - 4
    else if n == 62
    then 45
    else 95

pub digit_value : ℕ → Option ℕ
digit_value c =
    if leb 65 c && leb c 90
    then some (c - 65)
    else if leb 97 c && leb c 122
    then some (c - 71)
    else if leb 48 c && leb c 57
    then some (c + 4)
    else if c == 45
    then some 62
    else if c == 95
    then some 63
    else none

-- Three bytes as four six-bit digits; a rest of one or two bytes as two or three.
pub split : Bytes → List ℕ
split [] = []
split (a ∷ []) = (a / 4) ∷ (a % 4 * 16) ∷ []
split (a ∷ b ∷ []) = (a / 4) ∷ (a % 4 * 16 + b / 16) ∷ (b % 16 * 4) ∷ []
split (a ∷ b ∷ c ∷ rest) =
    (a / 4) ∷ (a % 4 * 16 + b / 16) ∷ (b % 16 * 4 + c / 64) ∷ (c % 64) ∷ split rest

unfoldable pub encode : Bytes → Bytes
unfolding split digit
encode bytes = map digit (split bytes)

abbrev pub corrupt_input : Error
corrupt_input = other "illegal base64 data"

-- Go skips both line break characters wherever they stand.
pub is_line_break : ℕ → Bool
is_line_break c = c == 10 || c == 13

pub digit_values : Bytes → Result (List ℕ)
digit_values [] = ok []
digit_values (c ∷ rest) =
    let later = digit_values rest in
    elim (digit_value c) [ none ↦ err corrupt_input | some v ↦ later >>= λ vs. ok (v ∷ vs) ]

-- A single digit left over is corrupt input.
pub join : List ℕ → Result Bytes
join [] = ok []
join (p ∷ []) = err corrupt_input
join (p ∷ q ∷ []) = ok ((p * 4 + q / 16) ∷ [])
join (p ∷ q ∷ r ∷ []) = ok ((p * 4 + q / 16) ∷ (q % 16 * 16 + r / 4) ∷ [])
join (p ∷ q ∷ r ∷ s ∷ rest) =
    let later = join rest in
    later >>= λ bytes. ok ((p * 4 + q / 16) ∷ (q % 16 * 16 + r / 4) ∷ (r % 4 * 64 + s) ∷ bytes)

unfoldable pub decode : Bytes → Result Bytes
unfolding is_line_break digit_value digit_values join
decode text = digit_values (select (λ c. not (is_line_break c)) text) >>= join
