-- ===== src/Fault.antt =====
-- Go error values and the results of fallible calls: the sentinels that the packages declare with
-- errors.New (internal/core/common.go and the files that own the others), the wrapping of
-- fmt.Errorf, errors.Is, and a panic as a third outcome beside a value and an error.
pub mod Returned
use service_json_keys.Prelude.{
  ℕ, String, Bool, false, ◌||◌, ◌==◌, Option, none, some, ◌≡◌, refl, ◌⊎◌, inl, inr,
}

-- Errors that are compared by identity. The last two belong to database/sql and to the jwt
-- library, and are tested for by the source.
pub data Sentinel : Type 0 where
  config_not_found : Sentinel
  jwk_not_found : Sentinel
  reserved_claim : Sentinel
  jwk_gen_unknown_key_usage : Sentinel
  jwk_extract_no_public_key : Sentinel
  jwk_preset_unknown : Sentinel
  jwk_preset_unknown_algorithm : Sentinel
  jwk_select_not_found : Sentinel
  jwk_delete_not_found : Sentinel
  jwk_search_too_many_results : Sentinel
  invalid_master_key : Sentinel
  invalid_secret : Sentinel
  invalid_ciphertext : Sentinel
  no_rows : Sentinel
  reserved_member : Sentinel

-- The identity of a sentinel.
abbrev pub identity : Sentinel → ℕ
identity config_not_found = 0
identity jwk_not_found = 1
identity reserved_claim = 2
identity jwk_gen_unknown_key_usage = 3
identity jwk_extract_no_public_key = 4
identity jwk_preset_unknown = 5
identity jwk_preset_unknown_algorithm = 6
identity jwk_select_not_found = 7
identity jwk_delete_not_found = 8
identity jwk_search_too_many_results = 9
identity invalid_master_key = 10
identity invalid_secret = 11
identity invalid_ciphertext = 12
identity no_rows = 13
identity reserved_member = 14

-- `wrap` is fmt.Errorf with one %w, `wrap_both` with two, and `other` is an error of a library that
-- the source compares with no sentinel.
pub data Error : Type 0 where
  sentinel : Sentinel → Error
  wrap : String → Error → Error
  wrap_both : Error → Error → Error
  other : String → Error

-- errors.Is: the error, or one that it wraps, is the sentinel.
abbrev pub errors_is : Error → Sentinel → Bool
errors_is (sentinel s) t = identity s == identity t
errors_is (wrap message e) t = errors_is e t
errors_is (wrap_both d e) t = errors_is d t || errors_is e t
errors_is (other message) t = false

-- The outcome of a call: Go's value and nil error, its nil value and error, or no return at all.
pub data Result {ℓ} (Value : Type ℓ) : Type ℓ where
  panic : Result Value
  err : Error → Result Value
  ok : Value → Result Value

-- `if err != nil { return }` between two calls.
infixl 5 ◌>>=◌
abbrev pub ◌>>=◌ {ℓ κ} :
    {Value : Type ℓ} {Next : Type κ} → Result Value → (Value → Result Next) → Result Next
panic >>= next = panic
err e >>= next = err e
ok value >>= next = next value

-- The return that wraps the error of a call.
abbrev pub map_error {ℓ} : {A : Type ℓ} → (Error → Error) → Result A → Result A
map_error f (ok a) = ok a
map_error f (err e) = err (f e)
map_error f panic = panic

-- A library's answer that is an error of its own when there is no value.
abbrev pub or_raise {ℓ} : {A : Type ℓ} → Error → Option A → Result A
or_raise e none = err e
or_raise e (some a) = ok a

-- Two calls in a row succeed only when the first one gave a value with which the second succeeds.
pub >>=-eq-ok {ℓ κ} :
    {Value : Type ℓ} {Next : Type κ} (call : Result Value) (next : Value → Result Next)
    {last : Next}
    → (call >>= next) ≡ ok last
    → (value : Value) × (call ≡ ok value) × (next value ≡ ok last)
>>=-eq-ok panic next h = cc
>>=-eq-ok (err e) next h = cc
>>=-eq-ok (ok value) next h = (value, refl, h)

pub map_error-eq-ok {ℓ} :
    {A : Type ℓ} (f : Error → Error) (m : Result A) {a : A} → map_error f m ≡ ok a → m ≡ ok a
map_error-eq-ok f (ok a) h = h
map_error-eq-ok f (err e) h = cc
map_error-eq-ok f panic h = cc

-- To split on a computed result and keep the equation.
pub Result-cases {ℓ} :
    {A : Type ℓ} (m : Result A)
    → ((a : A) × (m ≡ ok a)) ⊎ (((e : Error) × (m ≡ err e)) ⊎ (m ≡ panic))
Result-cases (ok a) = inl (a, refl)
Result-cases (err e) = inr (inl (e, refl))
Result-cases panic = inr (inr refl)

pub or_raise-eq-ok {ℓ} :
    {A : Type ℓ} (e : Error) (o : Option A) {a : A} → or_raise e o ≡ ok a → o ≡ some a
or_raise-eq-ok e none h = cc
or_raise-eq-ok e (some a) h = cc
