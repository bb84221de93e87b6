-- ===== src/Core/Claims.antt =====
-- internal/core/claimsSign.go and claimsVerify.go: the requests, and the jwt library that signs and
-- verifies, whose operations are those of one record. A token is passed on without being read.
pub mod RoundTrip
use service_json_keys.Prelude.{
  ℕ, ◌≤◌, ◌<◌, String, ◌≡◌, Bool, true, List, [], ◌∷◌, All, if◌then◌else◌,
}
use service_json_keys.Fault.{
  Error, Result, ok, sentinel, wrap, wrap_both, errors_is, config_not_found, reserved_claim,
  reserved_member, or_raise,
}
use service_json_keys.Prelude.Int.{pos, ◌≤ℤ◌}
use service_json_keys.Clock.{Duration, add}
use service_json_keys.Types.{Context}
use service_json_keys.Externals.{Externals}
use service_json_keys.Config.{JwkConfig, KeysConfig, lookup}
use service_json_keys.World.{World, Exec, lift, observe, on_error, ◌>>=◌}

-- jwt.TargetConfig
pub record TargetConfig : Type 0 where
  pub issuer : String
  pub audience : List String
  pub subject : String

-- jwt.ClaimsProducerConfig
pub record ClaimsProducerConfig : Type 0 where
  pub target : TargetConfig
  pub ttl : Duration

-- jwp.NewClaimsCheckTarget and jwp.NewClaimsCheckTimestamp, by their arguments.
pub data ClaimsCheck : Type 0 where
  check_target : TargetConfig → ClaimsCheck
  check_timestamp : Duration → Bool → ClaimsCheck

-- The jwt library: jwt.NewBasicClaims, Issue of a producer with the given plugins, and Consume of a
-- recipient with the given plugins and checks.
pub record Jwt (Value Claims Token Producer Recipient : Type 0) : Type 0 where
  pub new_basic_claims : Value → ClaimsProducerConfig → ℕ → Result Claims
  pub issue : Context → List Producer → Claims → Exec Token
  pub consume : Context → List Recipient → List ClaimsCheck → Token → Exec Value

-- ClaimsSignRequest
pub record ClaimsSignRequest (Value : Type 0) : Type 0 where
  pub claims : Value
  pub usage : String

-- ClaimsVerifyRequest
pub record ClaimsVerifyRequest (Token : Type 0) : Type 0 where
  pub token : Token
  pub usage : String
  pub ignore_expired : Bool

-- The target that a usage's tokens are made for.
abbrev pub target : JwkConfig → TargetConfig
target key_config = record {
  issuer = key_config.token.issuer;
  audience = key_config.token.audience ∷ [];
  subject = key_config.token.subject;
}

-- The envelope that a token of the usage is given.
abbrev pub envelope : JwkConfig → ClaimsProducerConfig
envelope key_config = record { target = target key_config; ttl = key_config.token.ttl }

-- The checks of a verification.
abbrev pub checks : JwkConfig → Bool → List ClaimsCheck
checks key_config ignore_expired =
    check_target (target key_config)
    ∷ (if ignore_expired then [] else check_timestamp key_config.token.leeway true ∷ [])

abbrev pub issue_error : Error → Error
issue_error e =
    if errors_is e reserved_member
    then wrap_both (sentinel reserved_claim) e
    else wrap "issue token" e

module _ {Value Claims Token Producer Recipient : Type 0}
    (jwt : Jwt Value Claims Token Producer Recipient) where
  -- ClaimsSign.Exec
  unfoldable pub sign :
      List (String × List Producer) → KeysConfig → Context → ClaimsSignRequest Value → Exec Token
  sign producers keys_config ctx request = do
    key_config ← lift (
        or_raise (wrap request.usage (sentinel config_not_found))
          (lookup request.usage keys_config))
    claims ←
        on_error (wrap "create claims")
          (observe (jwt.new_basic_claims request.claims (envelope key_config)))
    producer_plugins ←
        lift (
          or_raise (wrap request.usage (sentinel config_not_found))
            (lookup request.usage producers))
    on_error issue_error (jwt.issue ctx producer_plugins claims)

  -- ClaimsVerify.Exec
  unfoldable pub verify :
      List (String × List Recipient) → KeysConfig → Context → ClaimsVerifyRequest Token → Exec Value
  verify recipients keys_config ctx request = do
    key_config ← lift (
        or_raise (wrap request.usage (sentinel config_not_found))
          (lookup request.usage keys_config))
    recipient_plugins ← lift (
        or_raise (wrap request.usage (sentinel config_not_found)) (lookup request.usage recipients))
    jwt.consume ctx recipient_plugins (checks key_config request.ignore_expired) request.token

  -- What is relied upon of the library. `IsToken token c`: the token carries the claims; `Trusts
  -- recipients producers ctx w`: the verifying keys hold the signing key at that moment; `Passes`:
  -- the check accepts the claims at that moment. Claims made with a target pass its check, and pass
  -- the timestamp's of no negative leeway from their making until they expire, but not once the
  -- leeway has passed too. An issued token carries its claims; a recipient that trusts the
  -- producers gives the payload back when the checks pass, and one that accepts a token has made
  -- every check.
  pub record IsJwt (x : Externals) : Type 1 where
    pub IsToken : Token → Claims → Type 0
    pub Trusts : List Recipient → List Producer → Context → World → Type 0
    pub Passes : ClaimsCheck → Claims → World → Type 0
    pub payload : Claims → Value
    pub payload-new :
        (value : Value) (config : ClaimsProducerConfig) (n : ℕ) (c : Claims)
        → jwt.new_basic_claims value config n ≡ ok c
        → payload c ≡ value
    pub target-new :
        (value : Value) (config : ClaimsProducerConfig) (n : ℕ) (c : Claims) (w : World)
        → jwt.new_basic_claims value config n ≡ ok c
        → Passes (check_target config.target) c w
    pub fresh :
        (value : Value) (config : ClaimsProducerConfig) (n : ℕ) (c : Claims) (w : World)
        (leeway : Duration)
        → jwt.new_basic_claims value config n ≡ ok c
        → pos 0 ≤ℤ leeway
        → x.now n ≤ x.now w.step
        → x.now w.step < add (x.now n) config.ttl
        → Passes (check_timestamp leeway true) c w
    pub expired :
        (value : Value) (config : ClaimsProducerConfig) (n : ℕ) (c : Claims) (w : World)
        (leeway : Duration)
        → jwt.new_basic_claims value config n ≡ ok c
        → add (add (x.now n) config.ttl) leeway < x.now w.step
        → ¬ Passes (check_timestamp leeway true) c w
    pub issued :
        (ctx : Context) (producers : List Producer) (c : Claims) (w u : World) (token : Token)
        → jwt.issue ctx producers c w ≡ (ok token, u)
        → IsToken token c
    pub unique : (token : Token) (c d : Claims) → IsToken token c → IsToken token d → c ≡ d
    pub consumed :
        (sender receiver : Context) (producers : List Producer) (recipients : List Recipient)
        (all_checks : List ClaimsCheck) (c : Claims) (token : Token) (w u v : World)
        → jwt.issue sender producers c w ≡ (ok token, u)
        → Trusts recipients producers receiver v
        → All (λ check. Passes check c v) all_checks
        → (jwt.consume receiver recipients all_checks token v).0 ≡ ok (payload c)
    pub checked :
        (receiver : Context) (recipients : List Recipient) (all_checks : List ClaimsCheck)
        (token : Token) (v : World) (value : Value)
        → (jwt.consume receiver recipients all_checks token v).0 ≡ ok value
        → (c : Claims) × IsToken token c × All (λ check. Passes check c v) all_checks
