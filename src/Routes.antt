-- ===== src/Routes.antt =====
-- app/routes/transactions.py and app/routes/accounts.py: the handlers after authentication, with ids
-- converted: the dependencies come before the body is checked. A handler reads the database as it is at each read, so every read has its own version.
use ledgerlock.Responses.{to_response, BalanceResponse, account_public, AccountPublic}
use ledgerlock.Characters.{strip}
pub mod Owned
pub mod Pages
pub mod Submitted
pub mod Shown
use ledgerlock.Ledger.{Session, LedgerWriteResult}
use ledgerlock.Balance.{compute_balance, ComputedBalance}
use ledgerlock.Accounts.{
  get_account_or_raise, get_system_account, create_account, max_page_size, list_accounts_for_owner,
  get_owned_account_or_raise, AccountDraw,
}
use ledgerlock.Database.{Database}
use ledgerlock.Ledger.Create.{create_transfer, get_transaction, Run, Transactions}
use ledgerlock.Security.{Crypto, AuthenticatedUser}
use ledgerlock.Mongo.{Mongo}
use ledgerlock.Models.{
  Time, TransactionKind, is_currency_code, is_amount_minor, Transaction, Account, ObjectId,
  is_idempotency_key, system, user,
}
use ledgerlock.Base.{
  length, same_text, ◌||◌, not, ◌&&◌, ◌==◌, is_empty, same_option, any, leb, if◌then◌else◌, List,
  Bool, ℤ, Text, Option, ℕ, pos, inr, inl, arith, refl, suc, zero, false, true, some, none, ◌∷◌, [],
}
use ledgerlock.Errors.{
  forbidden_error, validation_error, malformed_idempotency_key_error, raise_if,
  transaction_not_found_error, idempotency_key_required_error, unsupported_currency_error, rejected,
  Result, ◌>>◌, err, ok, ◌>>=◌,
}

-- `validate_python` of the adapter for IdempotencyKey.
abbrev pub validated_key : Text → Result Text
unfolding is_idempotency_key
validated_key key =
    if is_idempotency_key key then ok key else err (rejected malformed_idempotency_key_error)

unfoldable pub require_idempotency_key : Option Text → Result Text
unfolding strip validated_key
require_idempotency_key none = err (rejected idempotency_key_required_error)
require_idempotency_key (some idempotency_key) = do
  raise_if (is_empty (strip idempotency_key)) (rejected idempotency_key_required_error)
  validated_key (strip idempotency_key)

pub record TransferCreateRequest : Type 0 where
  pub source_account_id : ObjectId
  pub destination_account_id : ObjectId
  pub amount_minor : ℤ
  pub currency : Text
  pub description : Text

pub record FundingCreateRequest : Type 0 where
  pub amount_minor : ℤ
  pub currency : Text
  pub description : Text

-- The field constraints of the two requests, which are the same.
unfoldable pub is_amount_request : ℤ → Text → Text → Bool
is_amount_request amount_minor currency description =
    is_amount_minor amount_minor && is_currency_code currency && leb (length description) 280

-- The field constraints of AccountCreateRequest.
unfoldable pub is_account_request : Text → Text → Bool
is_account_request currency label =
    is_currency_code currency && leb 1 (length label) && leb (length label) 120

abbrev pub is_owner : ObjectId → Account → Bool
is_owner user_id a = same_option a.owner_id (some user_id)

abbrev pub or_unsupported : Option Account → Result Account
or_unsupported none = err (rejected unsupported_currency_error)
or_unsupported (some a) = ok a

abbrev pub or_no_transaction : Option Transaction → Result Transaction
or_no_transaction none = err (rejected transaction_not_found_error)
or_no_transaction (some t) = ok t

module _ ⦃m : Mongo⦄ ⦃t : Transactions⦄ where
  -- The body of `create_transaction`; the committed session stands beside the document.
  unfoldable pub submit_transfer :
      Text
      → TransferCreateRequest
      → AuthenticatedUser
      → Database
      → Database
      → Run
      → List Run
      → Result (LedgerWriteResult × Session)
  submit_transfer idempotency_key payload caller seen_source seen_destination run rest = do
    source ← get_account_or_raise payload.source_account_id seen_source
    raise_if (not (is_owner caller.id source)) (rejected forbidden_error)
    destination ← get_account_or_raise payload.destination_account_id seen_destination
    create_transfer
        (record {
          idempotency_key = idempotency_key;
          source_account_id = payload.source_account_id;
          destination_account_id = payload.destination_account_id;
          amount_minor = payload.amount_minor;
          currency = payload.currency;
          description = payload.description;
          kind = TransactionKind.transfer;
          submitted_by = some caller.id;
        })
        run rest

  -- `create_transaction` with its parameters.
  unfoldable pub create_transaction :
      Option Text
      → TransferCreateRequest
      → AuthenticatedUser
      → Database
      → Database
      → Run
      → List Run
      → Result (LedgerWriteResult × Session)
  unfolding submit_transfer
  create_transaction idempotency_header payload caller seen_source seen_destination run rest = do
    idempotency_key ← require_idempotency_key idempotency_header
    raise_if (not (is_amount_request payload.amount_minor payload.currency payload.description))
        validation_error
    submit_transfer idempotency_key payload caller seen_source seen_destination run rest

  -- The body of `fund_account`.
  unfoldable pub submit_funding :
      ObjectId
      → Text
      → FundingCreateRequest
      → AuthenticatedUser
      → Database
      → Database
      → Run
      → List Run
      → Result (LedgerWriteResult × Session)
  submit_funding account_id idempotency_key payload caller seen_destination seen_system run rest =
      do
        destination ← get_owned_account_or_raise account_id caller.id seen_destination
        system_account ← or_unsupported (get_system_account payload.currency seen_system)
        create_transfer
            (record {
              idempotency_key = idempotency_key;
              source_account_id = system_account.id;
              destination_account_id = destination.id;
              amount_minor = payload.amount_minor;
              currency = payload.currency;
              description = payload.description;
              kind = TransactionKind.funding;
              submitted_by = some caller.id;
            })
            run rest

module _ ⦃m : Mongo⦄ where
  -- One of the listed accounts takes part in the transaction.
  abbrev pub takes_part : List Account → Transaction → Bool
  takes_part owned t =
      any (λ (a : Account). a.id == t.source_account_id || a.id == t.destination_account_id) owned

  unfoldable pub read_transaction :
      ObjectId → AuthenticatedUser → Database → Database → Result Transaction
  read_transaction transaction_id caller seen seen_accounts = do
    t ← or_no_transaction (get_transaction transaction_id seen)
    owned ← list_accounts_for_owner caller.id max_page_size 0 seen_accounts
    raise_if (not (takes_part owned t)) (rejected transaction_not_found_error)
    ok t

  -- The body of the handler `create_account`, with the configured currencies.
  unfoldable pub open_account :
      List Text
      → Text
      → Text
      → AuthenticatedUser
      → AccountDraw
      → Database
      → Result (Account × Database)
  open_account supported_currencies currency label caller d db = do
    raise_if (not (any (same_text currency) supported_currencies))
        (rejected unsupported_currency_error)
    create_account caller.id currency label d db

module _ ⦃m : Mongo⦄ ⦃k : Crypto⦄ where
  unfoldable pub read_account : ObjectId → AuthenticatedUser → Database → Result AccountPublic
  read_account account_id caller db = do
    account ← get_owned_account_or_raise account_id caller.id db
    account_public account

  -- The account and its entries are read from two versions.
  unfoldable pub read_balance :
      ObjectId → AuthenticatedUser → Database → Database → Time → Result BalanceResponse
  read_balance account_id caller seen seen_entries now = do
    account ← get_owned_account_or_raise account_id caller.id seen
    to_response (compute_balance account.id seen_entries.ledger_entries) account.id account.currency
        now
