-- ===== src/Core/Claims/RoundTrip.antt =====
-- What a token that was signed for a usage is worth at its verification.
use service_json_keys.Prelude.{
  ℕ, ◌≤◌, ◌<◌, String, ◌≡◌, ◌≢◌, ap, sym, ◌∙◌, ◌⊎◌, inl, inr, Bool, true, false, some, List, All,
  subst,
}
use service_json_keys.Fault.{ok, sentinel, wrap, config_not_found, or_raise-eq-ok}
use service_json_keys.Prelude.Int.{pos, ◌≤ℤ◌}
use service_json_keys.Clock.{add}
use service_json_keys.Types.{Context}
use service_json_keys.Externals.{Externals}
use service_json_keys.Config.{JwkConfig, KeysConfig, lookup}
use service_json_keys.World.{World, observe, ◌>>=◌}
use service_json_keys.World.Laws.{>>=-eq-ok, on_error-eq-ok}
use service_json_keys.Core.Claims.{
  Jwt, IsJwt, ClaimsSignRequest, sign, verify, envelope, checks, issue_error, check_timestamp,
}

module _ {Value Claims Token Producer Recipient : Type 0}
    (jwt : Jwt Value Claims Token Producer Recipient) (x : Externals)
    (producers : List (String × List Producer)) (recipients : List (String × List Recipient))
    (keys_config : KeysConfig) (sender receiver : Context) where
  -- What a signature that succeeds has gone through.
  pub record Signed (request : ClaimsSignRequest Value) (w u : World) (token : Token) : Type 0 where
    pub key_config : JwkConfig
    pub claims : Claims
    pub plugins : List Producer
    pub before : World
    pub configured : lookup request.usage keys_config ≡ some key_config
    pub created : jwt.new_basic_claims request.claims (envelope key_config) w.step ≡ ok claims
    pub wired : lookup request.usage producers ≡ some plugins
    pub issued : jwt.issue sender plugins claims before ≡ (ok token, u)

  pub sign-Signed :
      (request : ClaimsSignRequest Value) (w u : World) (token : Token)
      → sign jwt producers keys_config sender request w ≡ (ok token, u)
      → Signed request w u token
  unfolding sign
  sign-Signed request w u token h =
      let missing = wrap request.usage (sentinel config_not_found) in
      let (key_config, w1, configured, h1) = >>=-eq-ok _ _ w h in
      let (claims, w2, created, h2) = >>=-eq-ok _ _ w1 h1 in
      let (plugins, w3, wired, h3) = >>=-eq-ok _ _ w2 h2 in
      let created' =
        on_error-eq-ok (wrap "create claims")
          (observe (jwt.new_basic_claims request.claims (envelope key_config))) w1 created in
      let same : w ≡ w1 = ap (λ p. p.1) configured in
      record {
        key_config = key_config;
        claims = claims;
        plugins = plugins;
        before = w3;
        configured =
            or_raise-eq-ok missing (lookup request.usage keys_config) (ap (λ p. p.0) configured);
        created =
            subst
              (λ s. jwt.new_basic_claims request.claims (envelope key_config) s.step ≡ ok claims)
              (sym same) (ap (λ p. p.0) created');
        wired = or_raise-eq-ok missing (lookup request.usage producers) (ap (λ p. p.0) wired);
        issued = on_error-eq-ok issue_error (jwt.issue sender plugins claims) w3 h3;
      }

  -- With the configuration and the recipients of the usage in place, a verification is the
  -- library's.
  verify-eq :
      (usage : String) (token : Token) (ignore_expired : Bool) (v : World) (key_config : JwkConfig)
      (plugins : List Recipient)
      → lookup usage keys_config ≡ some key_config
      → lookup usage recipients ≡ some plugins
      → verify jwt recipients keys_config receiver
          (record { token = token; usage = usage; ignore_expired = ignore_expired })
          v
        ≡ jwt.consume receiver plugins (checks key_config ignore_expired) token v
  unfolding verify ◌>>=◌
  verify-eq usage token ignore_expired v key_config plugins configured wired =
      rw (configured, wired)

  checks-Passes :
      (law : IsJwt jwt x) (request : ClaimsSignRequest Value) (key_config : JwkConfig)
      (claims : Claims) (n : ℕ) (v : World) (ignore_expired : Bool)
      → jwt.new_basic_claims request.claims (envelope key_config) n ≡ ok claims
      → (ignore_expired ≡ true)
        ⊎ ((pos 0 ≤ℤ key_config.token.leeway)
            × (x.now n ≤ x.now v.step)
            × (x.now v.step < add (x.now n) key_config.token.ttl))
      → All (λ check. law.Passes check claims v) (checks key_config ignore_expired)
  checks-Passes law request key_config claims n v true made h =
      (law.target-new request.claims (envelope key_config) n claims v made, tt)
  checks-Passes law request key_config claims n v false made (inl e) = absurd cc
  checks-Passes law request key_config claims n v false made (inr (leeway, later, sooner)) =
      let timely =
        law.fresh request.claims (envelope key_config) n claims v key_config.token.leeway made
          leeway later sooner in
      (law.target-new request.claims (envelope key_config) n claims v made, (timely, tt))

  -- A token that was signed for a usage is verified under this usage, by recipients that trust its
  -- producers, and gives the claims of the request back: with a leeway that is not negative, from
  -- its signature until the lifetime of the usage's tokens has passed, and for good when expired
  -- tokens are let through.
  pub verify-sign :
      (law : IsJwt jwt x) (request : ClaimsSignRequest Value) (w u v : World) (token : Token)
      (key_config : JwkConfig) (signers : List Producer) (verifiers : List Recipient)
      (ignore_expired : Bool)
      → sign jwt producers keys_config sender request w ≡ (ok token, u)
      → lookup request.usage keys_config ≡ some key_config
      → lookup request.usage producers ≡ some signers
      → lookup request.usage recipients ≡ some verifiers
      → law.Trusts verifiers signers receiver v
      → (ignore_expired ≡ true)
        ⊎ ((pos 0 ≤ℤ key_config.token.leeway)
            × (x.now w.step ≤ x.now v.step)
            × (x.now v.step < add (x.now w.step) key_config.token.ttl))
      → (verify jwt recipients keys_config receiver
          (record { token = token; usage = request.usage; ignore_expired = ignore_expired })
          v).0
        ≡ ok request.claims
  verify-sign law request w u v token key_config signers verifiers ignore_expired h configured wired
        trusted trusts timely =
      let s = sign-Signed request w u token h in
      let same : s.key_config ≡ key_config = cc (s.configured, configured) in
      let plugged : s.plugins ≡ signers = cc (s.wired, wired) in
      let made : jwt.new_basic_claims request.claims (envelope key_config) w.step ≡ ok s.claims =
        subst (λ k. jwt.new_basic_claims request.claims (envelope k) w.step ≡ ok s.claims) same
          s.created in
      let sent : jwt.issue sender signers s.claims s.before ≡ (ok token, u) =
        subst (λ p. jwt.issue sender p s.claims s.before ≡ (ok token, u)) plugged s.issued in
      ap (λ p. p.0)
        (verify-eq request.usage token ignore_expired v key_config verifiers configured trusted)
      ∙ law.consumed sender receiver signers verifiers (checks key_config ignore_expired) s.claims
          token s.before u v sent trusts
          (checks-Passes law request key_config s.claims w.step v ignore_expired made timely)
      ∙ ap ok (law.payload-new request.claims (envelope key_config) w.step s.claims made)

  -- Once the lifetime of the usage's tokens and the leeway have passed since its signature, a token
  -- that was signed for a usage is verified under it no more, unless expired tokens are let
  -- through.
  pub verify_expired :
      (law : IsJwt jwt x) (request : ClaimsSignRequest Value) (w u v : World) (token : Token)
      (key_config : JwkConfig) (verifiers : List Recipient) (value : Value)
      → sign jwt producers keys_config sender request w ≡ (ok token, u)
      → lookup request.usage keys_config ≡ some key_config
      → lookup request.usage recipients ≡ some verifiers
      → add (add (x.now w.step) key_config.token.ttl) key_config.token.leeway < x.now v.step
      → (verify jwt recipients keys_config receiver
          (record { token = token; usage = request.usage; ignore_expired = false })
          v).0
        ≢ ok value
  verify_expired law request w u v token key_config verifiers value h configured trusted late
        accepted =
      let s = sign-Signed request w u token h in
      let same : s.key_config ≡ key_config = cc (s.configured, configured) in
      let made : jwt.new_basic_claims request.claims (envelope key_config) w.step ≡ ok s.claims =
        subst (λ k. jwt.new_basic_claims request.claims (envelope k) w.step ≡ ok s.claims) same
          s.created in
      let consumed =
        sym (
          ap (λ p. p.0)
            (verify-eq request.usage token false v key_config verifiers configured trusted))
        ∙ accepted in
      let (c, carried, (_, (timely, _))) =
        law.checked receiver verifiers (checks key_config false) token v value consumed in
      let one : c ≡ s.claims =
        law.unique token c s.claims carried
          (law.issued sender s.plugins s.claims s.before u token s.issued) in
      law.expired request.claims (envelope key_config) w.step s.claims v key_config.token.leeway
        made late
        (subst (λ d. law.Passes (check_timestamp key_config.token.leeway true) d v) one timely)
