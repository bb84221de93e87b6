-- ===== src/Config.antt =====
-- internal/config/jwks.config.go: the configuration of the key usages, and the bundled default of
-- jwks.config.yaml. A Go map is a list of entries here, read by its first entry of a key; its
-- iteration order is the order of the list.
pub mod Env
pub mod App
use service_json_keys.Prelude.{
  ℕ, ◌*◌, String, Option, none, some, List, [], ◌∷◌, str_eq, if◌then◌else◌,
}
use service_json_keys.Prelude.Int.{pos}
use service_json_keys.Clock.{Duration, second}

-- jwa.Alg: the algorithms that the source names, and any other text.
pub data Alg : Type 0 where
  ed_dsa es256 es384 es512 rs256 rs384 rs512 ps256 ps384 ps512 : Alg
  other_alg : String → Alg

pub record JwkKey : Type 0 where
  pub ttl : Duration
  pub rotation : Duration
  pub cache : Duration
  pub unknown_key_id_interval : Duration

pub record JwkToken : Type 0 where
  pub ttl : Duration
  pub issuer : String
  pub audience : String
  pub subject : String
  pub leeway : Duration

pub record JwkConfig : Type 0 where
  pub alg : Alg
  pub key : JwkKey
  pub token : JwkToken

abbrev pub KeysConfig : Type 0
KeysConfig = List (String × JwkConfig)

-- A map's read, `v, ok := m[key]`.
unfoldable pub lookup {ℓ} : {V : Type ℓ} → String → List (String × V) → Option V
lookup key [] = none
lookup key ((k, v) ∷ rest) = if str_eq k key then some v else lookup key rest

abbrev hours : ℕ → Duration
hours n = pos (n * (3600 * second))

abbrev minutes : ℕ → Duration
minutes n = pos (n * (60 * second))

abbrev pub auth : JwkConfig
auth = record {
  alg = ed_dsa;
  key = record {
    ttl = hours 168;
    rotation = hours 24;
    cache = minutes 30;
    unknown_key_id_interval = pos 0;
  };
  token = record {
    ttl = hours 24;
    issuer = "anovel-authentication";
    audience = "anovel-client";
    subject = "user-access";
    leeway = minutes 5;
  };
}

abbrev pub auth_refresh : JwkConfig
auth_refresh = record {
  alg = ed_dsa;
  key = record {
    ttl = hours 720;
    rotation = hours 168;
    cache = minutes 30;
    unknown_key_id_interval = pos 0;
  };
  token = record {
    ttl = hours 168;
    issuer = "anovel-authentication";
    audience = "anovel-client";
    subject = "user-refresh";
    leeway = minutes 5;
  };
}

-- JwkPresetDefault
abbrev pub jwk_preset_default : KeysConfig
jwk_preset_default = ("auth", auth) ∷ ("auth-refresh", auth_refresh) ∷ []
