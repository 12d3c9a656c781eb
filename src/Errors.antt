-- ===== src/Errors.antt =====
-- app/core/errors.py: the error codes, the exception classes with their status and code, and the
-- exceptions of the driver and of pydantic that pass through the same code. `Result` is what a
-- Python call gives: a value, or the exception that it raises.
pub mod Handlers
pub mod Envelope
use ledgerlock.Base.{ℕ, ◌≡◌, refl, Bool, true, false}

-- class ErrorCode(StrEnum)
pub data ErrorCode : Type 0 where
  malformed_request not_found method_not_allowed rate_limited internal_error : ErrorCode
  invalid_credentials email_already_registered unauthenticated : ErrorCode
  token_revoked token_expired forbidden : ErrorCode
  account_not_found account_not_active unsupported_currency : ErrorCode
  insufficient_funds duplicate_submission idempotency_key_required : ErrorCode
  malformed_idempotency_key transaction_not_found currency_mismatch : ErrorCode
  same_account_transfer ledger_immutable write_conflict : ErrorCode

-- The subclasses of LedgerlockError, and the base class itself.
pub data LedgerlockError : Type 0 where
  base : LedgerlockError
  invalid_credentials_error email_already_registered_error unauthenticated_error : LedgerlockError
  token_revoked_error token_expired_error forbidden_error : LedgerlockError
  account_not_found_error account_not_active_error unsupported_currency_error : LedgerlockError
  insufficient_funds_error duplicate_submission_error : LedgerlockError
  idempotency_key_required_error malformed_idempotency_key_error : LedgerlockError
  transaction_not_found_error currency_mismatch_error same_account_transfer_error : LedgerlockError
  ledger_immutable_error write_conflict_error : LedgerlockError

-- The class attribute `code`.
unfoldable pub code_of : LedgerlockError → ErrorCode
code_of base = ErrorCode.malformed_request
code_of invalid_credentials_error = ErrorCode.invalid_credentials
code_of email_already_registered_error = ErrorCode.email_already_registered
code_of unauthenticated_error = ErrorCode.unauthenticated
code_of token_revoked_error = ErrorCode.token_revoked
code_of token_expired_error = ErrorCode.token_expired
code_of forbidden_error = ErrorCode.forbidden
code_of account_not_found_error = ErrorCode.account_not_found
code_of account_not_active_error = ErrorCode.account_not_active
code_of unsupported_currency_error = ErrorCode.unsupported_currency
code_of insufficient_funds_error = ErrorCode.insufficient_funds
code_of duplicate_submission_error = ErrorCode.duplicate_submission
code_of idempotency_key_required_error = ErrorCode.idempotency_key_required
code_of malformed_idempotency_key_error = ErrorCode.malformed_idempotency_key
code_of transaction_not_found_error = ErrorCode.transaction_not_found
code_of currency_mismatch_error = ErrorCode.currency_mismatch
code_of same_account_transfer_error = ErrorCode.same_account_transfer
code_of ledger_immutable_error = ErrorCode.ledger_immutable
code_of write_conflict_error = ErrorCode.write_conflict

-- The class attribute `status_code`.
unfoldable pub status_code : LedgerlockError → ℕ
status_code base = 400
status_code invalid_credentials_error = 401
status_code email_already_registered_error = 409
status_code unauthenticated_error = 401
status_code token_revoked_error = 401
status_code token_expired_error = 401
status_code forbidden_error = 403
status_code account_not_found_error = 404
status_code account_not_active_error = 409
status_code unsupported_currency_error = 422
status_code insufficient_funds_error = 422
status_code duplicate_submission_error = 409
status_code idempotency_key_required_error = 400
status_code malformed_idempotency_key_error = 422
status_code transaction_not_found_error = 404
status_code currency_mismatch_error = 422
status_code same_account_transfer_error = 422
status_code ledger_immutable_error = 405
status_code write_conflict_error = 409

-- What a call may raise. `validation_error` is pydantic's, `overflow_error` is of an integer that BSON
-- cannot hold. `duplicate_key`, `operation_failure` and `connection_failure` are the driver's; the flag
-- tells whether the failure carries the label TransientTransactionError, which the driver also gives
-- to a network error in a transaction.
pub data Exc : Type 0 where
  rejected : LedgerlockError → Exc
  value_error validation_error overflow_error duplicate_key runtime_error : Exc
  connection_failure operation_failure : Bool → Exc

pub data Result {ℓ} (A : Type ℓ) : Type ℓ where
  ok : A → Result A
  err : Exc → Result A

infixl 5 ◌>>=◌ ◌>>◌
abbrev pub ◌>>=◌ {ℓ κ} : {A : Type ℓ} {B : Type κ} → Result A → (A → Result B) → Result B
ok value >>= rest = rest value
err raised >>= rest = err raised

abbrev pub ◌>>◌ {ℓ} : {B : Type ℓ} → Result (Unit {0}) → Result B → Result B
check >> rest = check >>= (λ _. rest)

-- `if test: raise e`
abbrev pub raise_if : Bool → Exc → Result (Unit {0})
raise_if true e = err e
raise_if false e = ok tt

-- Inversion of a successful chain.
pub >>=-eq-ok {ℓ κ} :
    {A : Type ℓ} {B : Type κ} (r : Result A) (f : A → Result B) {b : B}
    → (r >>= f) ≡ ok b
    → (a : A) × (r ≡ ok a) × (f a ≡ ok b)
>>=-eq-ok (ok a) f h = (a, refl, h)
>>=-eq-ok (err e) f h = cc

pub ok_injective {ℓ} : {A : Type ℓ} {a b : A} → ok a ≡ ok b → a ≡ b
ok_injective h = cc

-- A guard that let the code pass.
pub raise_if_passed : (test : Bool) (e : Exc) {u : Unit {0}} → raise_if test e ≡ ok u → test ≡ false
raise_if_passed true e h = cc
raise_if_passed false e h = refl

-- The same, handed on: `a` is a variable for what follows.
pub on_ok {ℓ κ ν} :
    {A : Type ℓ} {B : Type κ} {C : Type ν} (r : Result A) (f : A → Result B) {b : B}
    → (r >>= f) ≡ ok b
    → ((a : A) → r ≡ ok a → f a ≡ ok b → C)
    → C
on_ok (ok a) f h k = k a refl h
on_ok (err e) f h k = absurd (cc)

-- The same for a guard before what follows.
pub on_passed {ℓ κ} :
    {B : Type ℓ} {C : Type κ} (test : Bool) (e : Exc) (rest : Result B) {b : B}
    → (raise_if test e >> rest) ≡ ok b
    → (test ≡ false → rest ≡ ok b → C)
    → C
on_passed true e rest h k = absurd (cc)
on_passed false e rest h k = k refl h
