-- ===== src/App/Expected.antt =====
-- Which exceptions can be raised while the parameters of a request are read.
use ledgerlock.App.Parameters.{prepare_endpoint}
use ledgerlock.Auth.Requests.{is_password, login_request, register_request, or_no_email}
use ledgerlock.Database.{Database}
use ledgerlock.Mongo.{Mongo}
use ledgerlock.Models.{Time, ObjectId}
use ledgerlock.App.{Surroundings, Request, Endpoint, Program, Body, or_bad_id, Effect, outcome}
use ledgerlock.Routes.{require_idempotency_key}
use ledgerlock.Security.{
  is_access, user_by_id, decode_access_token, get_current_user, require_credentials, Crypto,
  or_token_error, Credentials, Decoded, or_unauthenticated,
}
use ledgerlock.Errors.{
  Result, Exc, ok, err, raise_if, ◌>>=◌, ◌>>◌, rejected, unauthenticated_error, validation_error,
}
use ledgerlock.Base.{
  ◌&&◌, length, leb, is_empty, Bool, true, false, Option, some, none, ◌≡◌, refl, not, Text, arith,
}

-- Every exception of a call passes the test.
abbrev pub only {ℓ} : {A : Type ℓ} → (Exc → Bool) → Result A → Bool
only p (ok a) = true
only p (err e) = p e

abbrev pub is_rejection : Exc → Bool
is_rejection (Exc.rejected e) = true
is_rejection _ = false

-- A rejection, or pydantic's while the parameters are read.
abbrev pub is_expected : Exc → Bool
is_expected (Exc.rejected e) = true
is_expected Exc.validation_error = true
is_expected _ = false

pub only_bind :
    {A B : Type 0} (p : Exc → Bool) (r : Result A) (f : A → Result B)
    → only p r ≡ true
    → ((a : A) → r ≡ ok a → only p (f a) ≡ true)
    → only p (r >>= f) ≡ true
only_bind p (ok a) f h k = k a refl
only_bind p (err e) f h k = h

pub only_guard :
    {B : Type 0} (p : Exc → Bool) (test : Bool) (e : Exc) (rest : Result B)
    → p e ≡ true
    → only p rest ≡ true
    → only p (raise_if test e >> rest) ≡ true
only_guard p true e rest here there = here
only_guard p false e rest here there = there

pub only-outcome :
    {A : Type 0} (p : Exc → Bool) (r : Result A) (effect : A → Effect) (respond : A → Result Body)
    → only p r ≡ true
    → ((a : A) → r ≡ ok a → only p (respond a) ≡ true)
    → only p (outcome r effect respond).1 ≡ true
unfolding outcome
only-outcome p (ok a) effect respond h k = k a refl
only-outcome p (err e) effect respond h k = h

require_credentials-only :
    (c : Option Credentials) → only is_expected (require_credentials c) ≡ true
require_credentials-only none = refl
require_credentials-only (some c) =
    only_guard is_expected (is_empty c.credentials) (rejected unauthenticated_error) (ok c) refl
      refl

or_unauthenticated-only :
    {A : Type 0} (o : Option A) → only is_expected (or_unauthenticated o) ≡ true
or_unauthenticated-only none = refl
or_unauthenticated-only (some a) = refl

or_token_error-only : (d : Decoded) → only is_expected (or_token_error d) ≡ true
or_token_error-only Decoded.expired_signature = refl
or_token_error-only Decoded.invalid_token = refl
or_token_error-only (Decoded.claims c) = refl

or_bad_id-only : (o : Option ObjectId) → only is_expected (or_bad_id o) ≡ true
or_bad_id-only none = refl
or_bad_id-only (some i) = refl

or_no_email-only : (o : Option Text) → only is_expected (or_no_email o) ≡ true
or_no_email-only none = refl
or_no_email-only (some email) = refl

key-only : (header : Option Text) → only is_expected (require_idempotency_key header) ≡ true
unfolding require_idempotency_key
key-only none = refl
key-only (some key) = ground arith

module _ ⦃m : Mongo⦄ ⦃k : Crypto⦄ where
  token-only : (token : Text) (now : Time) → only is_expected (decode_access_token token now) ≡ true
  unfolding decode_access_token
  token-only token now =
      only_bind is_expected (or_token_error (k.decode token now)) _
        (or_token_error-only (k.decode token now))
        λ payload _.
          only_guard is_expected (not (is_access payload.typ)) (rejected unauthenticated_error)
            (ok payload) refl refl

  caller-only :
      (c : Option Credentials) (now : Time) (db : Database)
      → only is_expected (get_current_user c now db) ≡ true
  unfolding get_current_user
  caller-only c now db = only_bind is_expected _ _ (require_credentials-only c) λ given _.
      only_guard is_expected _ _ _ refl (
        only_bind is_expected _ _ (token-only given.credentials now) λ payload _.
          only_guard is_expected _ _ _ refl (
            only_bind is_expected _ _ (or_unauthenticated-only (k.object_id payload.sub)) λ i _.
              only_bind is_expected _ _ (or_unauthenticated-only (user_by_id i db)) λ u _. refl))

  pub prepare_endpoint-only :
      (program : Program) (endpoint : Endpoint) (request : Request) (met : Surroundings)
      → only is_expected (prepare_endpoint program endpoint request met) ≡ true
  unfolding prepare_endpoint register_request login_request
  prepare_endpoint-only program (Endpoint.register email password) request met =
      only_bind is_expected _ _
        (only_bind is_expected _ _ (or_no_email-only (program.validate_email email)) λ address _.
          only_guard is_expected (not (is_password password)) validation_error (ok _) refl refl)
        λ r _. refl
  prepare_endpoint-only program (Endpoint.login email password) request met =
      only_bind is_expected _ _
        (only_bind is_expected _ _ (or_no_email-only (program.validate_email email)) λ address _.
          only_guard is_expected (not (leb 1 (length password) && leb (length password) 1024))
            validation_error (ok _) refl refl)
        λ r _. refl
  prepare_endpoint-only program Endpoint.logout request met =
      only_bind is_expected _ _ (caller-only _ _ _) λ u _. refl
  prepare_endpoint-only program Endpoint.read_current_user request met =
      only_bind is_expected _ _ (caller-only _ _ _) λ u _. refl
  prepare_endpoint-only program Endpoint.read_reconciliation request met =
      only_bind is_expected _ _ (caller-only _ _ _) λ u _. refl
  prepare_endpoint-only program (Endpoint.open_account currency label) request met =
      only_bind is_expected _ _ (caller-only _ _ _) λ u _. ground arith
  prepare_endpoint-only program (Endpoint.list_accounts limit offset) request met =
      only_bind is_expected _ _ (caller-only _ _ _) λ u _. ground arith
  prepare_endpoint-only program (Endpoint.read_account i) request met =
      only_bind is_expected _ _ (caller-only _ _ _)
        λ u _. only_bind is_expected _ _ (or_bad_id-only (k.object_id i)) λ j _. refl
  prepare_endpoint-only program (Endpoint.read_balance i) request met =
      only_bind is_expected _ _ (caller-only _ _ _)
        λ u _. only_bind is_expected _ _ (or_bad_id-only (k.object_id i)) λ j _. refl
  prepare_endpoint-only program (Endpoint.read_transaction i) request met =
      only_bind is_expected _ _ (caller-only _ _ _)
        λ u _. only_bind is_expected _ _ (or_bad_id-only (k.object_id i)) λ j _. refl
  prepare_endpoint-only program (Endpoint.fund_account i payload) request met =
      only_bind is_expected _ _ (key-only request.idempotency_key) λ key _.
        only_bind is_expected _ _ (caller-only _ _ _)
          λ u _. only_bind is_expected _ _ (or_bad_id-only (k.object_id i)) λ j _. ground arith
  prepare_endpoint-only program (Endpoint.create_transaction payload) request met =
      only_bind is_expected _ _ (key-only request.idempotency_key) λ key _.
        only_bind is_expected _ _ (caller-only _ _ _) λ u _.
          only_bind is_expected _ _ (or_bad_id-only (k.object_id payload.source_account_id)) λ i _.
            only_bind is_expected _ _ (or_bad_id-only (k.object_id payload.destination_account_id))
              λ j _. ground arith
