-- ===== src/Database.antt =====
-- app/core/db.py: the five collections as one value, the validators that it attaches to them, its
-- unique indexes, and the writes that the services make. A write fails as a whole.
pub mod Laws
use ledgerlock.Base.{
  ◌+◌, Bool, true, false, ◌&&◌, ◌||◌, not, Option, List, [], ◌∷◌, Text, same_text, pos, neg, leb_ℤ,
  eqb_ℤ, leb, ◌==◌, length, if◌then◌else◌,
}
use ledgerlock.Errors.{Result, ok, err, ◌>>=◌, operation_failure}
use ledgerlock.Models.{
  ObjectId, Account, is_user, Transaction, LedgerEntry, is_credit, same_direction, User,
  RevokedToken,
}
use ledgerlock.Mongo.{Mongo}

pub record Database : Type 0 where
  pub accounts : List Account
  pub transactions : List Transaction
  pub ledger_entries : List LedgerEntry
  pub users : List User
  pub revoked_tokens : List RevokedToken

abbrev pub empty_database : Database
empty_database = record {
  accounts = [];
  transactions = [];
  ledger_entries = [];
  users = [];
  revoked_tokens = [];
}

-- `uq_idempotency_key`, and the index on `_id`.
unfoldable pub clash_transaction : Transaction → Transaction → Bool
clash_transaction a b = same_text a.idempotency_key b.idempotency_key || a.id == b.id

-- `uq_one_entry_per_direction_per_transaction`, and the index on `_id`.
unfoldable pub clash_entry : LedgerEntry → LedgerEntry → Bool
clash_entry a b =
    (a.transaction_id == b.transaction_id && same_direction a.direction b.direction) || a.id == b.id

-- `uq_system_account_per_currency`, a partial index on SYSTEM accounts, and the index on `_id`.
unfoldable pub clash_account : Account → Account → Bool
clash_account a b =
    (not (is_user a.account_type)
      && not (is_user b.account_type)
      && same_text a.currency b.currency)
    || a.id == b.id

-- `uq_email`, and the index on `_id`.
unfoldable pub clash_user : User → User → Bool
clash_user a b = same_text a.email b.email || a.id == b.id

module _ ⦃m : Mongo⦄ where
  -- `_ledger_entry_validator`: a positive magnitude, the currency's pattern, and the sign. The BSON
  -- types and the required fields are the record's.
  unfoldable pub ledger_entry_validator : LedgerEntry → Bool
  ledger_entry_validator e =
      leb_ℤ (pos 1) e.amount_minor
      && m.currency_pattern e.currency
      && eqb_ℤ e.signed_amount_minor
          (if is_credit e.direction then e.amount_minor else neg e.amount_minor)

  -- `_transaction_validator`
  unfoldable pub transaction_validator : Transaction → Bool
  transaction_validator t =
      leb 8 (length t.idempotency_key)
      && leb (length t.idempotency_key) 128
      && leb_ℤ (pos 1) t.amount_minor
      && m.currency_pattern t.currency
      && leb (length t.description) 280

-- The writes of the services.
pub data Write : Type 0 where
  increment_counter : ObjectId → Write  -- `update_one` with `$inc` on an account
  insert_transaction : Transaction → Write
  insert_entries : List LedgerEntry → Write  -- `insert_many(..., ordered=True)`
  insert_account : Account → Write
  insert_user : User → Write

abbrev pub increment : Account → Account
increment a = record a { debit_serialisation_counter = a.debit_serialisation_counter + 1 }

-- A failure inside `insert_many` is a BulkWriteError, which is no DuplicateKeyError.
abbrev pub as_bulk : Result (List LedgerEntry) → Result (List LedgerEntry)
as_bulk (ok l) = ok l
as_bulk (err e) = err (operation_failure false)

module _ ⦃m : Mongo⦄ where
  unfoldable pub insert_many : List LedgerEntry → List LedgerEntry → Result (List LedgerEntry)
  insert_many [] l = ok l
  insert_many (e ∷ es) l = do
    l' ← as_bulk (m.insert_one ledger_entry_validator clash_entry e l)
    insert_many es l'

  unfoldable pub perform : Write → Database → Result Database
  perform (increment_counter i) db =
      ok (record db { accounts = m.update_one (λ (a : Account). a.id == i) increment db.accounts })
  perform (insert_transaction t) db = do
    l ← m.insert_one transaction_validator clash_transaction t db.transactions
    ok (record db { transactions = l })
  perform (insert_entries es) db = do
    l ← insert_many es db.ledger_entries
    ok (record db { ledger_entries = l })
  perform (insert_account a) db = do
    l ← m.insert_one (λ _. true) clash_account a db.accounts
    ok (record db { accounts = l })
  perform (insert_user u) db = do
    l ← m.insert_one (λ _. true) clash_user u db.users
    ok (record db { users = l })

  -- Several writes of one session, applied to a database in their order.
  unfoldable pub perform_all : List Write → Database → Result Database
  perform_all [] db = ok db
  perform_all (w ∷ ws) db = do db' ← perform w db; perform_all ws db'

  -- `accounts.find_one({"_id": i})`
  unfoldable pub account_by_id : ObjectId → Database → Option Account
  account_by_id i db = m.find_one (λ (a : Account). a.id == i) db.accounts

  -- `transactions.find_one({"idempotency_key": key})`
  unfoldable pub transaction_by_key : Text → Database → Option Transaction
  transaction_by_key key db =
      m.find_one (λ (t : Transaction). same_text key t.idempotency_key) db.transactions

  -- `transactions.find_one({"_id": i})`
  unfoldable pub transaction_by_id : ObjectId → Database → Option Transaction
  transaction_by_id i db = m.find_one (λ (t : Transaction). t.id == i) db.transactions
