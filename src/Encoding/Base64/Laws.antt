-- ===== src/Encoding/Base64/Laws.antt =====
-- Decoding after encoding, the size of an encoding, and what a decoding can hold.
use service_json_keys.Prelude.{
  ℕ, ◌+◌, ◌*◌, ◌%◌, ◌/◌, ◌<◌, ◌≡◌, refl, false, not, some, inl, inr, Option-cases, List, [], ◌∷◌,
  map, select, All, arith, length,
}
use service_json_keys.Fault.{ok, >>=-eq-ok}
use service_json_keys.Fault.Returned.{is_returned, IsReturned, IsReturned->>=}
use service_json_keys.Encoding.Octets.{Bytes, IsBytes}
use service_json_keys.Encoding.Base64.{
  digit, digit_value, split, encode, is_line_break, digit_values, join, decode,
}

digit_value-digit : (n : ℕ) → n < 64 → digit_value (digit n) ≡ some n
unfolding digit digit_value
digit_value-digit n h = ground arith

is_line_break-digit : (n : ℕ) → n < 64 → is_line_break (digit n) ≡ false
unfolding digit is_line_break
is_line_break-digit n h = ground arith

abbrev IsDigits : List ℕ → Type 0
IsDigits = All (λ n. n < 64)

split-IsDigits : (bytes : Bytes) → IsBytes bytes → IsDigits (split bytes)
unfolding split
split-IsDigits [] h = tt
split-IsDigits (a ∷ []) h = omega arith
split-IsDigits (a ∷ b ∷ []) h = omega arith
split-IsDigits (a ∷ b ∷ c ∷ rest) (p, (q, (r, h))) =
    (omega arith, (omega arith, (omega arith, (omega arith, split-IsDigits rest h))))

digit_values-digits :
    (ns : List ℕ)
    → IsDigits ns
    → digit_values (select (λ c. not (is_line_break c)) (map digit ns)) ≡ ok ns
unfolding digit_values
digit_values-digits [] h = refl
digit_values-digits (n ∷ ns) (p, h) =
    rw (is_line_break-digit n p, digit_value-digit n p, digit_values, digit_values-digits ns h)

join-split : (bytes : Bytes) → IsBytes bytes → join (split bytes) ≡ ok bytes
unfolding join split
join-split [] h = refl
join-split (a ∷ []) h = ground arith
join-split (a ∷ b ∷ []) h = ground arith
join-split (a ∷ b ∷ c ∷ rest) (p, (q, (r, h))) = ground (arith, join-split rest h)

-- Decoding an encoded byte string gives it back.
pub decode-encode : (bytes : Bytes) → IsBytes bytes → decode (encode bytes) ≡ ok bytes
unfolding decode encode
decode-encode bytes h =
    rw (digit_values-digits (split bytes) (split-IsDigits bytes h)) (join-split bytes h)

digit_value-lt : (c v : ℕ) → digit_value c ≡ some v → v < 64
unfolding digit_value
digit_value-lt c v h = ground arith

digit_values-IsDigits : (text : Bytes) (ns : List ℕ) → digit_values text ≡ ok ns → IsDigits ns
unfolding digit_values
digit_values-IsDigits [] ns h = ground arith
digit_values-IsDigits (c ∷ rest) ns h = elim (Option-cases (digit_value c)) [
  | inl missing ↦ cc (rw (missing, digit_values) at h)
  | inr (v, found) ↦
      let (vs, read, same) = >>=-eq-ok (digit_values rest) _ (rw (found, digit_values) at h) in
      ground (arith, digit_value-lt c v found, digit_values-IsDigits rest vs read)
]

join-IsBytes : (ns : List ℕ) (bytes : Bytes) → IsDigits ns → join ns ≡ ok bytes → IsBytes bytes
unfolding join
join-IsBytes [] bytes h e = ground arith
join-IsBytes (p ∷ []) bytes h e = ground arith
join-IsBytes (p ∷ q ∷ []) bytes h e = ground arith
join-IsBytes (p ∷ q ∷ r ∷ []) bytes h e = ground arith
join-IsBytes (p ∷ q ∷ r ∷ s ∷ rest) bytes (hp, (hq, (hr, (hs, h)))) e =
    let (later, joined, same) = >>=-eq-ok (join rest) _ e in
    let valid = join-IsBytes rest later h joined in ground arith

-- What decoding accepts is a byte string.
pub decode-IsBytes : (text bytes : Bytes) → decode text ≡ ok bytes → IsBytes bytes
unfolding decode
decode-IsBytes text bytes h =
    let kept = select (λ c. not (is_line_break c)) text in
    let (ns, read, joined) = >>=-eq-ok (digit_values kept) join h in
    join-IsBytes ns bytes (digit_values-IsDigits kept ns read) joined

-- An encoding has four characters for every three bytes, rounded up.
pub length-encode : (bytes : Bytes) → length (encode bytes) ≡ (4 * length bytes + 2) / 3
unfolding encode split
length-encode [] = refl
length-encode (a ∷ []) = refl
length-encode (a ∷ b ∷ []) = refl
length-encode (a ∷ b ∷ c ∷ rest) = omega (arith, length-encode rest)

digit_values-IsReturned : (text : Bytes) → IsReturned (digit_values text)
unfolding digit_values is_returned
digit_values-IsReturned [] = refl
digit_values-IsReturned (c ∷ rest) = elim (Option-cases (digit_value c)) [
  | inl missing ↦ rw (missing, digit_values)
  | inr (v, found) ↦
      rw (found, digit_values)
        (IsReturned->>= (digit_values rest) (λ vs. ok (v ∷ vs)) (digit_values-IsReturned rest)
          (λ vs. refl))
]

join-IsReturned : (ns : List ℕ) → IsReturned (join ns)
unfolding join is_returned
join-IsReturned [] = refl
join-IsReturned (p ∷ []) = refl
join-IsReturned (p ∷ q ∷ []) = refl
join-IsReturned (p ∷ q ∷ r ∷ []) = refl
join-IsReturned (p ∷ q ∷ r ∷ s ∷ rest) =
    IsReturned->>= (join rest)
      (λ bytes. ok ((p * 4 + q / 16) ∷ (q % 16 * 16 + r / 4) ∷ (r % 4 * 64 + s) ∷ bytes))
      (join-IsReturned rest) (λ bytes. refl)

-- Decoding does not panic.
pub decode-IsReturned : (text : Bytes) → IsReturned (decode text)
unfolding decode
decode-IsReturned text =
    let kept = select (λ c. not (is_line_break c)) text in
    IsReturned->>= (digit_values kept) join (digit_values-IsReturned kept) join-IsReturned
