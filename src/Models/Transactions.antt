-- ===== src/Models/Transactions.antt =====
-- app/models/transaction.py: the transaction document and the checks of its model.
use ledgerlock.Base.{Bool, ◌&&◌, Option, Text, ℤ, pos, ltb_ℤ, leb, length, if◌then◌else◌}
use ledgerlock.Errors.{Result, ok, err, validation_error}
use ledgerlock.Models.Common.{ObjectId, Time, is_currency_code, is_idempotency_key}

pub data TransactionStatus : Type 0 where
  pending completed failed reversed : TransactionStatus

pub data TransactionKind : Type 0 where
  transfer funding : TransactionKind

-- TransactionDocument, with the `_id` that the service gives it.
pub record Transaction : Type 0 where
  pub id : ObjectId
  pub idempotency_key : Text
  pub kind : TransactionKind
  pub status : TransactionStatus
  pub source_account_id : ObjectId
  pub destination_account_id : ObjectId
  pub amount_minor : ℤ
  pub currency : Text
  pub description : Text
  pub submitted_by : Option ObjectId
  pub created_at : Time

-- The field constraints of TransactionDocument.
unfoldable pub is_transaction_document : Transaction → Bool
is_transaction_document t =
    is_idempotency_key t.idempotency_key
    && ltb_ℤ (pos 0) t.amount_minor
    && is_currency_code t.currency
    && leb (length t.description) 280

-- `TransactionDocument(...)`: the model checks its fields when it is built.
unfoldable pub transaction_document : Transaction → Result Transaction
unfolding is_transaction_document
transaction_document t = if is_transaction_document t then ok t else err validation_error
