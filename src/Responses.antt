-- ===== src/Responses.antt =====
-- The response models of app/models/account.py, transaction.py and ledger_entry.py, with
-- `ComputedBalance.to_response` of app/services/balance_service.py, and the check of EmailStr in those
-- of app/models/user.py. A response model checks its fields when it is built.
pub mod Built
use ledgerlock.Auth.{TokenResponse}
use ledgerlock.Auth.Requests.{or_no_email}
use ledgerlock.Security.{Crypto}
use ledgerlock.Balance.{ComputedBalance}
use ledgerlock.Models.{
  AccountStatus, AccountType, Account, TransactionStatus, TransactionKind, Transaction,
  EntryDirection, LedgerEntry, ObjectId, Time, is_currency_code,
}
use ledgerlock.Errors.{◌>>=◌, ◌>>◌, Result, ok, raise_if, validation_error}
use ledgerlock.Base.{Bool, Option, none, some, Text, ℤ, ℕ, pos, leb_ℤ, not, ◌&&◌, List, [], ◌∷◌}

pub record AccountPublic : Type 0 where
  pub id : Text
  pub owner_id : Option Text
  pub currency : Text
  pub status : AccountStatus
  pub account_type : AccountType
  pub label : Text
  pub created_at : Time

pub record BalanceResponse : Type 0 where
  pub account_id : Text
  pub currency : Text
  pub balance_minor : ℤ
  pub total_credited_minor : ℤ
  pub total_debited_minor : ℤ
  pub entry_count : ℕ
  pub computed_at : Time

pub record TransactionPublic : Type 0 where
  pub id : Text
  pub status : TransactionStatus
  pub kind : TransactionKind
  pub source_account_id : Text
  pub destination_account_id : Text
  pub amount_minor : ℤ
  pub currency : Text
  pub description : Text
  pub idempotency_key : Text
  pub created_at : Time

pub record LedgerEntryPublic : Type 0 where
  pub id : Text
  pub transaction_id : Text
  pub account_id : Text
  pub direction : EntryDirection
  pub amount_minor : ℤ
  pub signed_amount_minor : ℤ
  pub currency : Text
  pub created_at : Time

-- The field constraints of BalanceResponse.
unfoldable pub is_balance_response : Text → ComputedBalance → Bool
is_balance_response currency b =
    is_currency_code currency
    && leb_ℤ (pos 0) b.total_credited_minor
    && leb_ℤ (pos 0) b.total_debited_minor

-- EmailStr in UserPublic, which reads the stored address again.
abbrev pub user_shown :
    (Text → Option Text) → ObjectId × Text × Time → Result (ObjectId × Text × Time)
user_shown validate_email (i, email, created_at) = do
  address ← or_no_email (validate_email email)
  ok (i, address, created_at)

abbrev pub token_shown : (Text → Option Text) → TokenResponse → Result TokenResponse
token_shown validate_email response = do
  public ← user_shown validate_email response.user
  ok (record response { user = public })

-- `[... for doc in documents]`: the first failure is the outcome.
unfoldable pub each : {A B : Type 0} → (A → Result B) → List A → Result (List B)
each f [] = ok []
each f (a ∷ l) = do b ← f a; rest ← each f l; ok (b ∷ rest)

module _ ⦃k : Crypto⦄ where
  -- `str(owner_id) if owner_id is not None else None`
  abbrev pub owner_text : Option ObjectId → Option Text
  owner_text none = none
  owner_text (some i) = some (k.object_id_text i)

  -- `AccountPublic.from_document`
  unfoldable pub account_public : Account → Result AccountPublic
  account_public a = do
    raise_if (not (is_currency_code a.currency)) validation_error
    ok record {
      id = k.object_id_text a.id;
      owner_id = owner_text a.owner_id;
      currency = a.currency;
      status = a.status;
      account_type = a.account_type;
      label = a.label;
      created_at = a.created_at;
    }

  unfoldable pub to_response : ComputedBalance → ObjectId → Text → Time → Result BalanceResponse
  unfolding is_balance_response
  to_response b account_id currency now = do
    raise_if (not (is_balance_response currency b)) validation_error
    ok record {
      account_id = k.object_id_text account_id;
      currency = currency;
      balance_minor = b.balance_minor;
      total_credited_minor = b.total_credited_minor;
      total_debited_minor = b.total_debited_minor;
      entry_count = b.entry_count;
      computed_at = now;
    }

  -- `TransactionPublic.from_document`
  unfoldable pub transaction_public : Transaction → Result TransactionPublic
  transaction_public t = do
    raise_if (not (is_currency_code t.currency)) validation_error
    ok record {
      id = k.object_id_text t.id;
      status = t.status;
      kind = t.kind;
      source_account_id = k.object_id_text t.source_account_id;
      destination_account_id = k.object_id_text t.destination_account_id;
      amount_minor = t.amount_minor;
      currency = t.currency;
      description = t.description;
      idempotency_key = t.idempotency_key;
      created_at = t.created_at;
    }

  -- `LedgerEntryPublic.from_document`
  unfoldable pub entry_public : LedgerEntry → Result LedgerEntryPublic
  entry_public e = do
    raise_if (not (is_currency_code e.currency)) validation_error
    ok record {
      id = k.object_id_text e.id;
      transaction_id = k.object_id_text e.transaction_id;
      account_id = k.object_id_text e.account_id;
      direction = e.direction;
      amount_minor = e.amount_minor;
      signed_amount_minor = e.signed_amount_minor;
      currency = e.currency;
      created_at = e.created_at;
    }
