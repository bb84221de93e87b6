-- ===== src/Sample/Tokens.antt =====
-- The signature and the verification of tokens at concrete inputs.
use service_json_keys.Prelude.{
  ℕ, ◌+◌, ◌≡◌, ◌≢◌, ◌<◌, refl, sym, ◌∙◌, Bool, true, false, ◌==◌, leb, none, some, List, [], ◌∷◌,
  arith, all, Bool-cases, str_eq, eq_iff, String, inl, inr, if◌then◌else◌, All,
}
use service_json_keys.Fault.{ok, err, sentinel, other, reserved_member}
use service_json_keys.Clock.{Time, add}
use service_json_keys.Types.{Context}
use service_json_keys.Config.{KeysConfig, auth, lookup}
use service_json_keys.World.{World, ◌>>=◌}
use service_json_keys.Core.Claims.{
  Jwt, IsJwt, ClaimsCheck, check_target, check_timestamp, ClaimsSignRequest, sign, verify,
}
use service_json_keys.Core.Claims.RoundTrip.{verify-sign, verify_expired}
use service_json_keys.Sample.{sample, ctx, one_key}

record Token : Type 0 where
  value : ℕ
  subject : String
  expires_at : Time

abbrev passes : ClaimsCheck → Token → World → Bool
passes (check_target target) token w = str_eq token.subject target.subject
passes (check_timestamp leeway required) token w =
    leb (sample.now w.step) (add token.expires_at leeway)

abbrev all_pass : List ClaimsCheck → Token → World → Bool
all_pass checks token w = all (λ check. passes check token w) checks

-- A library whose tokens are their claims, and which lets no claim of the value 13 through.
abbrev jwt : Jwt ℕ Token Token ℕ ℕ
jwt = record {
  new_basic_claims = λ value config n. ok (record {
    value = value;
    subject = config.target.subject;
    expires_at = add (sample.now n) config.ttl;
  });
  issue = λ ctx producers claims w.
      (if claims.value == 13 then err (sentinel reserved_member) else ok claims, w);
  consume = λ ctx recipients checks token w.
      (if all_pass checks token w then ok token.value else err (other "invalid token"), w);
}

all_pass-All :
    (checks : List ClaimsCheck) (token : Token) (w : World)
    → All (λ check. passes check token w ≡ true) checks
    → all_pass checks token w ≡ true
all_pass-All [] token w h = refl
all_pass-All (check ∷ checks) token w (now, later) = rw (now, all_pass-All checks token w later)

All-all_pass :
    (checks : List ClaimsCheck) (token : Token) (w : World)
    → all_pass checks token w ≡ true
    → All (λ check. passes check token w ≡ true) checks
All-all_pass [] token w h = tt
All-all_pass (check ∷ checks) token w h = ground (arith, All-all_pass checks token w)

issued_sample :
    (sender : Context) (producers : List ℕ) (c : Token) (w u : World) (token : Token)
    → jwt.issue sender producers c w ≡ (ok token, u)
    → token ≡ c
issued_sample sender producers c w u token h = ground arith

consumed_sample :
    (sender receiver : Context) (producers recipients : List ℕ) (checks : List ClaimsCheck)
    (c token : Token) (w u v : World)
    → jwt.issue sender producers c w ≡ (ok token, u)
    → recipients ≡ producers
    → All (λ check. passes check c v ≡ true) checks
    → (jwt.consume receiver recipients checks token v).0 ≡ ok c.value
consumed_sample sender receiver producers recipients checks c token w u v sent trusts passed =
    rw (issued_sample sender producers c w u token sent, all_pass-All checks c v passed)

accepted :
    (checks : List ClaimsCheck) (token : Token) (v : World) (value : ℕ)
    → (jwt.consume ctx [] checks token v).0 ≡ ok value
    → all_pass checks token v ≡ true
accepted checks token v value h = elim (Bool-cases (all_pass checks token v)) [
  | inl e ↦ e
  | inr e ↦ absurd (cc (rw e at h))
]

jwt-IsJwt : IsJwt jwt sample
unfolding add
jwt-IsJwt = record {
  IsToken = λ token claims. token ≡ claims;
  Trusts = λ recipients producers ctx w. recipients ≡ producers;
  Passes = λ check claims w. passes check claims w ≡ true;
  payload = λ claims. claims.value;
  payload-new = λ value config n c h. cc;
  target-new = λ value config n c w h. ground (arith, eq_iff c.subject config.target.subject);
  fresh = λ value config n c w leeway h positive later sooner. ground arith;
  expired = λ value config n c w leeway h late passed. ground arith;
  issued = issued_sample;
  unique = λ token c d one two. sym one ∙ two;
  consumed = consumed_sample;
  checked = λ receiver recipients checks token v value h.
      (token, refl, All-all_pass checks token v (accepted checks token v value h));
}

abbrev keys_config : KeysConfig
keys_config = ("auth", auth) ∷ []

abbrev plugins : List (String × List ℕ)
plugins = ("auth", 5 ∷ []) ∷ []

abbrev request : ℕ → ClaimsSignRequest ℕ
request n = record { claims = n; usage = "auth" }

-- An hour, and two days, after `one_key`.
abbrev soon : World
soon = record one_key { step = 3600 }

abbrev late : World
late = record one_key { step = 172_800 }

abbrev token_5 : Token
token_5 = record {
  value = 5;
  subject = "user-access";
  expires_at = add (sample.now one_key.step) auth.token.ttl;
}

abbrev signed_world : World
signed_world = record one_key { step = one_key.step + 1 }

sign_runs : sign jwt plugins keys_config ctx (request 5) one_key ≡ (ok token_5, signed_world)
unfolding sign lookup ◌>>=◌
sign_runs = refl

configured : lookup "auth" keys_config ≡ some auth
unfolding lookup
configured = refl

wired : lookup "auth" plugins ≡ some (5 ∷ [])
unfolding lookup
wired = refl

missing : lookup "other" keys_config ≡ none
unfolding lookup
missing = refl

in_time : sample.now soon.step < add (sample.now one_key.step) auth.token.ttl
unfolding add
in_time = omega arith

too_late :
    add (add (sample.now one_key.step) auth.token.ttl) auth.token.leeway < sample.now late.step
unfolding add
too_late = omega arith

verify-sign_example :
    (verify jwt plugins keys_config ctx
      (record { token = token_5; usage = "auth"; ignore_expired = false })
      soon).0
    ≡ ok 5
unfolding jwt-IsJwt
verify-sign_example =
    verify-sign jwt sample plugins plugins keys_config ctx ctx jwt-IsJwt (request 5) one_key
      signed_world soon token_5 auth (5 ∷ []) (5 ∷ []) false sign_runs configured wired wired refl
      (inr (omega arith, omega arith, in_time))

verify_expired_example :
    (verify jwt plugins keys_config ctx
      (record { token = token_5; usage = "auth"; ignore_expired = false })
      late).0
    ≢ ok 5
verify_expired_example =
    verify_expired jwt sample plugins plugins keys_config ctx ctx jwt-IsJwt (request 5) one_key
      signed_world late token_5 auth (5 ∷ []) 5 sign_runs configured wired too_late
