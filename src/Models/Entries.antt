-- ===== src/Models/Entries.antt =====
-- app/models/ledger_entry.py: the ledger entry, the sign convention, and the model's own checks.
use ledgerlock.Base.{
  Bool, true, false, ◌&&◌, not, Text, ℤ, pos, neg, ltb_ℤ, leb_ℤ, eqb_ℤ, if◌then◌else◌,
}
use ledgerlock.Errors.{Result, ok, err, ◌>>=◌, ◌>>◌, raise_if, value_error, validation_error}
use ledgerlock.Models.Common.{ObjectId, Time, is_currency_code}

pub data EntryDirection : Type 0 where
  debit credit : EntryDirection

abbrev pub is_debit : EntryDirection → Bool
is_debit debit = true
is_debit credit = false

abbrev pub is_credit : EntryDirection → Bool
is_credit debit = false
is_credit credit = true

-- `$eq` on directions.
abbrev pub same_direction : EntryDirection → EntryDirection → Bool
same_direction debit d = is_debit d
same_direction credit d = is_credit d

-- LedgerEntryDocument, with the `_id` that the driver gives it.
pub record LedgerEntry : Type 0 where
  pub id : ObjectId
  pub transaction_id : ObjectId
  pub account_id : ObjectId
  pub direction : EntryDirection
  pub amount_minor : ℤ
  pub signed_amount_minor : ℤ
  pub currency : Text
  pub created_at : Time

-- The value under the sign convention, once the amount is known to be positive.
abbrev pub signed : EntryDirection → ℤ → ℤ
signed debit amount = neg amount
signed credit amount = amount

unfoldable pub signed_amount_for : EntryDirection → ℤ → Result ℤ
signed_amount_for direction amount_minor = do
  raise_if (leb_ℤ amount_minor (pos 0)) value_error
  ok (signed direction amount_minor)

-- The validator `sign_must_match_direction`; a ValueError in it is a ValidationError outside.
unfoldable pub sign_must_match_direction : LedgerEntry → Result LedgerEntry
unfolding signed_amount_for
sign_must_match_direction e = do
  expected ← signed_amount_for e.direction e.amount_minor
  raise_if (not (eqb_ℤ e.signed_amount_minor expected)) value_error
  ok e

-- How the model turns the outcome of its validator into the outcome of its construction.
abbrev pub as_validation : Result LedgerEntry → Result LedgerEntry
as_validation (ok e) = ok e
as_validation (err x) = err validation_error

-- `LedgerEntryDocument(...)`: the field constraints, then the validator.
unfoldable pub ledger_entry_document : LedgerEntry → Result LedgerEntry
unfolding sign_must_match_direction
ledger_entry_document e =
    if ltb_ℤ (pos 0) e.amount_minor && is_currency_code e.currency
    then as_validation (sign_must_match_direction e)
    else err validation_error

-- `LedgerEntryDocument.create`
unfoldable pub create_entry :
    ObjectId → ObjectId → ObjectId → EntryDirection → ℤ → Text → Time → Result LedgerEntry
unfolding signed_amount_for ledger_entry_document
create_entry id transaction_id account_id direction amount_minor currency created_at = do
  signed_amount ← signed_amount_for direction amount_minor
  ledger_entry_document record {
    id = id;
    transaction_id = transaction_id;
    account_id = account_id;
    direction = direction;
    amount_minor = amount_minor;
    signed_amount_minor = signed_amount;
    currency = currency;
    created_at = created_at;
  }
