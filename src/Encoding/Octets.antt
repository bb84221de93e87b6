-- ===== src/Encoding/Octets.antt =====
-- A Go []byte, and a Go string read as its bytes: a list of numbers, each below 256 in the code.
use service_json_keys.Prelude.{ℕ, ◌<◌, List, All}

abbrev pub Bytes : Type 0
Bytes = List ℕ

abbrev pub IsBytes : Bytes → Type 0
IsBytes = All (λ b. b < 256)
