-- ===== src/Ledger/Refused.antt =====
-- The refusals of a run, in the order of the guards.
use ledgerlock.Ledger.Complete.{validate_participants_total}
use ledgerlock.Balance.{get_available_balance_minor}
use ledgerlock.Database.{account_by_id, transaction_by_key, Database, perform}
use ledgerlock.Ledger.{open_session, Draw, Transfer, write, check_funds, apply_transfer}
use ledgerlock.Mongo.{Mongo}
use ledgerlock.Models.{is_user, Account}
use ledgerlock.Base.{◌≡◌, ℕ, ltb_ℤ, ◌≤ℤ◌, ℤ, arith, refl, true, none}
use ledgerlock.Ledger.Guards.{Participants}
use ledgerlock.Errors.{insufficient_funds_error, rejected, err}

short : (x a : ℤ) → (a ≤ℤ x → ⊥) → ltb_ℤ x a ≡ true
short x a h = ground arith

module _ ⦃m : Mongo⦄ where
  check_funds_short :
      (source : Account) (r : Transfer) (db : Database)
      → is_user source.account_type ≡ true
      → (r.amount_minor ≤ℤ get_available_balance_minor r.source_account_id db.ledger_entries → ⊥)
      → check_funds source r (open_session db) ≡ err (rejected insufficient_funds_error)
  unfolding check_funds write perform get_available_balance_minor
  check_funds_short source r db u h = rw (u, m.update_one_first, short _ _ h) refl

  -- A run whose key is not in use and whose accounts are there, ACTIVE and in the currency is refused
  -- with InsufficientFundsError if its source is a USER account that does not cover the amount,
  -- whatever the amount and the ids are.
  pub apply_transfer-short :
      (attempts : ℕ) (r : Transfer) (d : Draw) (db : Database) (source destination : Account)
      → transaction_by_key r.idempotency_key db ≡ none
      → Participants
          (account_by_id r.source_account_id db)
          (account_by_id r.destination_account_id db)
          r.currency
          (source, destination)
      → is_user source.account_type ≡ true
      → ¬ (r.amount_minor ≤ℤ get_available_balance_minor r.source_account_id db.ledger_entries)
      → apply_transfer attempts r d (open_session db) ≡ err (rejected insufficient_funds_error)
  unfolding apply_transfer
  apply_transfer-short attempts r d db source destination unused p u h =
      rw
        (
          unused,
          validate_participants_total _ _ r.currency source destination p,
          check_funds_short source r db u h,
        )
        refl
