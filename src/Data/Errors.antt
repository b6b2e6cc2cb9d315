-- ===== src/Data/Errors.antt =====
-- What a call can throw (src/products/exception/response.exception.ts, src/products/error/authorization.ts and the
-- exceptions of @nestjs/common that the services raise), and results of calls that can throw.
use core_status.Base.{ℕ, String, ◌≡◌, refl, Bool, true, false, ◌⊎◌, inl, inr}

pub data Error : Type 0 where
  -- a Nest `HttpException` with its status and message
  http : ℕ → String → Error
  -- `ResponseException`: the errors, the title and the status
  response : String → String → ℕ → Error
  -- any other thrown value: its `code` ("" where it has none) and its message
  failure : String → String → Error
  -- nothing is thrown: a promise that is awaited is never settled, and nothing is answered
  pending : Error
  -- an exception that nothing catches ends the process, and nothing is answered
  crashed : Error

abbrev pub response_exception : String → String → ℕ → Error
response_exception errors title status = response errors title status

abbrev pub channel_deletion_error : Error
channel_deletion_error =
    http 500 "channel could not be deleted from channel group for specified channel parameters"

abbrev pub grant_not_found : Error
grant_not_found = http 404 "grant not found"

abbrev pub grant_operation_not_allowed : Error
grant_operation_not_allowed = http 405 "range does not support this operation"

abbrev pub singleton_grant_exists : Error
singleton_grant_exists = http 409 "all/latest grant already exists"

abbrev pub grant_invalid_token_scope : Error
grant_invalid_token_scope = http 403 "missing permission"

abbrev pub channel_group_addition_error : Error
channel_group_addition_error =
    http 500 "channel could not be added in channel group for specified channel parameters"

abbrev pub channel_group_removal_error : Error
channel_group_removal_error =
    http 500 "channel could not be removed from the channel group for specified channel parameters"

abbrev pub push_notification_sending_error : Error
push_notification_sending_error =
    http 500
      "notification could not be published to the channel for specified notification parameters"

abbrev pub range_is_not_granted : Error
range_is_not_granted = http 500 "Range is not granted"

abbrev pub bad_request : String → Error
bad_request message = http 400 message

abbrev pub not_found : String → Error
not_found message = http 404 message

abbrev pub internal_server_error : Error
internal_server_error = http 500 "Internal Server Error"

abbrev pub type_error : Error
type_error = failure "" "TypeError"

-- `e.code` and `e.message`
abbrev pub error_code : Error → String
error_code (http _ _) = ""
error_code (response _ _ _) = ""
error_code (failure code _) = code
error_code pending = ""
error_code crashed = ""

abbrev pub error_message : Error → String
error_message (http _ message) = message
error_message (response _ title _) = title
error_message (failure _ message) = message
error_message pending = ""
error_message crashed = ""

-- what a call answers with: a value, or what it has thrown
pub data Result {ℓ} (Value : Type ℓ) : Type ℓ where
  ok : Value → Result Value
  err : Error → Result Value

abbrev pub is_ok {ℓ} : {Value : Type ℓ} → Result Value → Bool
is_ok (ok _) = true
is_ok (err _) = false

-- Chaining of calls that throw and touch no state.
module _ {ℓ κ} {V : Type ℓ} {U : Type κ} where
  infixl 5 ◌>>=◌
  abbrev pub ◌>>=◌ : Result V → (V → Result U) → Result U
  ok value >>= rest = rest value
  err thrown >>= rest = err thrown

  pub >>=-eq-ok :
      (first : Result V) (rest : V → Result U) {answer : U}
      → (first >>= rest) ≡ ok answer
      → (value : V) × (first ≡ ok value) × (rest value ≡ ok answer)
  >>=-eq-ok (ok value) rest h = (value, refl, h)
  >>=-eq-ok (err thrown) rest h = cc

infixl 5 ◌>>◌
abbrev pub ◌>>◌ {ℓ} : {U : Type ℓ} → Result (Unit {0}) → Result U → Result U
first >> rest = first >>= λ done. rest

pub Result-cases {ℓ} :
    {A : Type ℓ} (r : Result A) → ((a : A) × (r ≡ ok a)) ⊎ ((e : Error) × (r ≡ err e))
Result-cases (ok a) = inl (a, refl)
Result-cases (err e) = inr (e, refl)
