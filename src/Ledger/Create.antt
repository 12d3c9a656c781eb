-- ===== src/Ledger/Create.antt =====
-- app/services/ledger_service.py: `create_transfer` around the runs of `_apply_transfer`, and the two
-- reads. The driver's `with_transaction` is an interface.
use ledgerlock.Ledger.{open_session, apply_transfer, Session, LedgerWriteResult, Draw, Transfer}
use ledgerlock.Database.{transaction_by_id, Database}
use ledgerlock.Mongo.{Mongo}
use ledgerlock.Models.{Transaction, LedgerEntry, ObjectId}
use ledgerlock.Base.{◌+◌, ◌==◌, take, ◌≡◌, List, ℕ, Option, suc, true, some, none, ◌∷◌, []}
use ledgerlock.Errors.{
  same_account_transfer_error, raise_if, write_conflict_error, duplicate_submission_error, Exc,
  rejected, Result, ◌>>◌, err, ok, duplicate_key, operation_failure, connection_failure,
}

-- One run of the callback: the version that its session reads, what it draws, and the exception
-- that the server raises in it or at its commit, if any.
pub record Run : Type 0 where
  pub snapshot : Database
  pub draw : Draw
  pub fault : Option Exc

-- A transient failure goes to what comes later; every other outcome stands.
abbrev pub on_transient : {A : Type 0} → Result A → Result A → Result A
on_transient (ok a) later = ok a
on_transient (err (operation_failure true)) later = later
on_transient (err (connection_failure true)) later = later
on_transient (err e) later = err e

-- The documented behaviour of `with_transaction`: run again on the label TransientTransactionError
-- until the deadline, after which the last failure is raised. The callback has the number of runs
-- before it, which is what it shares with the earlier runs.
abbrev pub run_until : {R A : Type 0} → (ℕ → R → Result A) → ℕ → R → List R → Result A
run_until callback n run [] = callback n run
run_until callback n run (next ∷ rest) =
    on_transient (callback n run) (run_until callback (suc n) next rest)

-- The list holds the runs that fit before the deadline, after the first.
pub record Transactions : Type 1 where
  pub with_transaction : {R A : Type 0} → (ℕ → R → Result A) → R → List R → Result A
  pub with_transaction_runs :
      {R A : Type 0} (callback : ℕ → R → Result A) (run : R) (rest : List R)
      → with_transaction callback run rest ≡ run_until callback 0 run rest

abbrev pub raise_fault : Option Exc → Result (Unit {0})
raise_fault none = ok tt
raise_fault (some e) = err e

-- The `except` clauses of `create_transfer`. A labelled ConnectionFailure is no OperationFailure.
abbrev pub handle_driver_error : {A : Type 0} → Result A → Result A
handle_driver_error (ok a) = ok a
handle_driver_error (err duplicate_key) = err (rejected duplicate_submission_error)
handle_driver_error (err (operation_failure true)) = err (rejected write_conflict_error)
handle_driver_error (err e) = err e

module _ ⦃m : Mongo⦄ where
  -- `callback`: the counter `attempt` goes up first.
  unfoldable pub callback : Transfer → ℕ → Run → Result (LedgerWriteResult × Session)
  callback r n run = do
    raise_fault run.fault
    apply_transfer (n + 1) r run.draw (open_session run.snapshot)

module _ ⦃m : Mongo⦄ ⦃t : Transactions⦄ where
  -- The session of the run that commits stands beside the result.
  unfoldable pub create_transfer : Transfer → Run → List Run → Result (LedgerWriteResult × Session)
  create_transfer r run rest = do
    raise_if (r.source_account_id == r.destination_account_id)
        (rejected same_account_transfer_error)
    handle_driver_error (t.with_transaction (callback r) run rest)

module _ ⦃m : Mongo⦄ where
  unfoldable pub get_transaction : ObjectId → Database → Option Transaction
  get_transaction i db = transaction_by_id i db

  unfoldable pub get_entries_for_transaction : ObjectId → Database → List LedgerEntry
  get_entries_for_transaction i db =
      take 2 (m.find (λ (e : LedgerEntry). e.transaction_id == i) db.ledger_entries)
