-- ===== src/Ledger.antt =====
-- app/services/ledger_service.py: the one writer of `transactions` and `ledger_entries`. A session
-- sees its snapshot with its own writes, and keeps the list of them for the commit. What a run draws
-- from outside (object ids, the clock) is an argument, `Draw`.
pub mod Guards
pub mod Applied
pub mod Effects
pub mod Pairs
pub mod Create
pub mod Retry
pub mod Complete
pub mod Refused
pub mod Readback
use ledgerlock.Base.{
  ℕ, ◌||◌, not, Option, none, some, List, [], ◌∷◌, ◌++◌, Text, same_text, ℤ, ltb_ℤ, is_some,
  if◌then◌else◌,
}
use ledgerlock.Errors.{
  account_not_found_error, account_not_active_error, currency_mismatch_error,
  insufficient_funds_error, duplicate_submission_error, rejected, Result, ok, err, ◌>>=◌, ◌>>◌,
  raise_if,
}
use ledgerlock.Models.{
  ObjectId, Time, Account, not_active, is_user, Transaction, TransactionKind, TransactionStatus,
  transaction_document, EntryDirection, create_entry,
}
use ledgerlock.Mongo.{Mongo}
use ledgerlock.Database.{
  Database, Write, increment_counter, insert_transaction, insert_entries, perform, account_by_id,
  transaction_by_key,
}
use ledgerlock.Balance.{compute_balance}

-- The keyword arguments of `create_transfer`.
pub record Transfer : Type 0 where
  pub idempotency_key : Text
  pub source_account_id : ObjectId
  pub destination_account_id : ObjectId
  pub amount_minor : ℤ
  pub currency : Text
  pub description : Text
  pub kind : TransactionKind
  pub submitted_by : Option ObjectId

-- What one run of the callback draws: `ObjectId()`, the ids that `insert_many` gives, `utc_now()`.
pub record Draw : Type 0 where
  pub transaction_id : ObjectId
  pub debit_entry_id : ObjectId
  pub credit_entry_id : ObjectId
  pub transaction_time : Time
  pub debit_time : Time
  pub credit_time : Time

pub record LedgerWriteResult : Type 0 where
  pub transaction_document : Transaction
  pub debit_entry_id : ObjectId
  pub credit_entry_id : ObjectId
  pub attempts : ℕ

pub record Session : Type 0 where
  pub view : Database
  pub writes : List Write

abbrev pub open_session : Database → Session
open_session db = record { view = db; writes = [] }

-- The header that a run builds.
abbrev pub header : Transfer → Draw → Transaction
header r d = record {
  id = d.transaction_id;
  idempotency_key = r.idempotency_key;
  kind = r.kind;
  status = TransactionStatus.completed;
  source_account_id = r.source_account_id;
  destination_account_id = r.destination_account_id;
  amount_minor = r.amount_minor;
  currency = r.currency;
  description = r.description;
  submitted_by = r.submitted_by;
  created_at = d.transaction_time;
}

-- The loop over the two accounts, one round of it.
abbrev pub require_active : Account → Result (Unit {0})
require_active a = raise_if (not_active a.status) (rejected account_not_active_error)

abbrev pub or_not_found : Option Account → Result Account
or_not_found none = err (rejected account_not_found_error)
or_not_found (some a) = ok a

-- `_validate_participants`; the two accounts are returned, since they are not None after it.
unfoldable pub validate_participants :
    Option Account → Option Account → Text → Result (Account × Account)
validate_participants source destination currency = do
  src ← or_not_found source
  dst ← or_not_found destination
  require_active src
  require_active dst
  raise_if (not (same_text src.currency currency) || not (same_text dst.currency currency))
      (rejected currency_mismatch_error)
  ok (src, dst)

module _ ⦃m : Mongo⦄ where
  -- A write inside the session's transaction.
  unfoldable pub write : Write → Session → Result Session
  write w s = do view ← perform w s.view; ok (record { view = view; writes = s.writes ++ w ∷ [] })

  -- Step 3: the serialisation write, the balance after it, and the sufficiency check.
  unfoldable pub check_funds : Account → Transfer → Session → Result Session
  check_funds source r s =
      if is_user source.account_type
      then (do
        s' ← write (increment_counter r.source_account_id) s
        raise_if
            (ltb_ℤ (compute_balance r.source_account_id s'.view.ledger_entries).balance_minor
              r.amount_minor)
            (rejected insufficient_funds_error)
        ok s')
      else ok s

  -- `_apply_transfer`, in its run number `attempts`.
  unfoldable pub apply_transfer :
      ℕ → Transfer → Draw → Session → Result (LedgerWriteResult × Session)
  apply_transfer attempts r d s = do
    raise_if (is_some (transaction_by_key r.idempotency_key s.view))
        (rejected duplicate_submission_error)
    participants ←
        validate_participants (account_by_id r.source_account_id s.view)
          (account_by_id r.destination_account_id s.view) r.currency
    s1 ← check_funds participants.0 r s
    transaction ← transaction_document (header r d)
    s2 ← write (insert_transaction transaction) s1
    debit_entry ←
        create_entry d.debit_entry_id d.transaction_id r.source_account_id EntryDirection.debit
          r.amount_minor r.currency d.debit_time
    credit_entry ←
        create_entry d.credit_entry_id d.transaction_id r.destination_account_id
          EntryDirection.credit r.amount_minor r.currency d.credit_time
    s3 ← write (insert_entries (debit_entry ∷ credit_entry ∷ [])) s2
    ok (
      record {
        transaction_document = transaction;
        debit_entry_id = d.debit_entry_id;
        credit_entry_id = d.credit_entry_id;
        attempts = attempts;
      },
      s3,
    )
