-- ===== src/Encoding/Hex/Laws.antt =====
-- A decoded text has two digits for every byte.
use service_json_keys.Prelude.{ℕ, ◌*◌, ◌<◌, ◌≡◌, [], ◌∷◌, length, arith}
use service_json_keys.Fault.{ok, >>=-eq-ok}
use service_json_keys.Encoding.Octets.{Bytes, IsBytes}
use service_json_keys.Encoding.Hex.{digit_value, byte, decode}

byte-lt : (c d b : ℕ) → byte c d ≡ ok b → b < 256
unfolding byte digit_value
byte-lt c d b h = ground arith

pub length-decode : (text bytes : Bytes) → decode text ≡ ok bytes → length text ≡ 2 * length bytes
unfolding decode
length-decode [] bytes h = ground arith
length-decode (c ∷ []) bytes h = ground arith
length-decode (c ∷ d ∷ rest) bytes h =
    let (b, _, read) = >>=-eq-ok (byte c d) _ h in
    let (later, decoded, same) = >>=-eq-ok (decode rest) _ read in
    ground (arith, length-decode rest later decoded)

pub decode-IsBytes : (text bytes : Bytes) → decode text ≡ ok bytes → IsBytes bytes
unfolding decode
decode-IsBytes [] bytes h = ground arith
decode-IsBytes (c ∷ []) bytes h = ground arith
decode-IsBytes (c ∷ d ∷ rest) bytes h =
    let (b, pair, read) = >>=-eq-ok (byte c d) _ h in
    let (later, decoded, same) = >>=-eq-ok (decode rest) _ read in
    ground (arith, byte-lt c d b pair, decode-IsBytes rest later decoded)
