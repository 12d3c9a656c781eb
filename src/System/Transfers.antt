-- ===== src/System/Transfers.antt =====
-- `create_transfer` as a step of the system, what its commit changes, and what is read back.
use ledgerlock.Balance.Laws.{balance_at, balance-compute_balance}
use ledgerlock.Ledger.Applied.{apply_transfer_ok}
use ledgerlock.Ledger.Effects.{balance_at-transferred, perform_all-transfer, transferred, moved}
use ledgerlock.System.Invariant.{Reach-Inv}
use ledgerlock.Ledger.Retry.{create_transfer_ok, nth_run}
use ledgerlock.Ledger.Readback.{get_entries_for_transaction-Paired, Entries}
use ledgerlock.Database.{Write, perform_all, Database}
use ledgerlock.Ledger.{open_session, apply_transfer, Session, LedgerWriteResult, Draw, Transfer}
use ledgerlock.Balance.{get_available_balance_minor}
use ledgerlock.Ledger.Create.{
  create_transfer, get_entries_for_transaction, get_transaction, Run, Transactions,
}
use ledgerlock.Mongo.{Mongo}
use ledgerlock.Models.{Transaction, ObjectId}
use ledgerlock.Errors.{ok}
use ledgerlock.Base.{
  ◌∙◌, sym, subst, some_eq, ap, ◌+ℤ◌, ◌++◌, ◌+◌, ◌≡◌, List, ℕ, arith, refl, some, ◌∷◌, [],
}
use ledgerlock.System.{commit, Unchanged, Elem, State, Step, Reach}

module _ ⦃m : Mongo⦄ where
  -- The commit of a run adds its header to the transactions and moves the balance of every account
  -- by the amount: down on the source, up on the destination, and not at all elsewhere.
  pub apply_transfer-moves :
      (attempts : ℕ) (r : Transfer) (d : Draw) (snapshot current db : Database)
      (out : LedgerWriteResult × Session)
      → apply_transfer attempts r d (open_session snapshot) ≡ ok out
      → perform_all out.1.writes current ≡ ok db
      → (db.transactions ≡ current.transactions ++ out.0.transaction_document ∷ [])
        × ((i : ObjectId)
            → get_available_balance_minor i db.ledger_entries
              ≡ get_available_balance_minor i current.ledger_entries +ℤ moved r i)
  unfolding get_available_balance_minor
  apply_transfer-moves attempts r d snapshot current db out run done =
      let a = apply_transfer_ok attempts r d (open_session snapshot) out run in
      let same : db ≡ transferred r d a.source current =
        (perform_all-transfer r d a.source current db
          (subst (λ (ws : List Write). perform_all ws current ≡ ok db) a.written done)).1 in
      (
        ap (λ (x : Database). x.transactions) same
            ∙ ap (λ (x : LedgerWriteResult). current.transactions ++ x.transaction_document ∷ [])
                (sym a.result),
        λ i.
            rw (balance-compute_balance, balance-compute_balance)
              (ap (λ (x : Database). balance_at i x.ledger_entries) same
                ∙ balance_at-transferred r d a.source current i),
      )

  -- In every state that the system reaches, the entries read for a transaction that exists are
  -- exactly its debit and its credit.
  pub reads_both_sides :
      {s : State}
      → Reach s
      → (k : ObjectId) (t : Transaction) → get_transaction k s.current ≡ some t
      → Entries t (get_entries_for_transaction k s.current)
  reads_both_sides {s} reached =
      get_entries_for_transaction-Paired s.current (Reach-Inv reached).sound.paired

module _ ⦃m : Mongo⦄ ⦃t : Transactions⦄ where
  -- The step of a transfer that returns.
  pub create_transfer-Step :
      (s : State) (r : Transfer) (run : Run) (rest : List Run) (out : LedgerWriteResult × Session)
      (n : ℕ) (x : Run) (db : Database)
      → create_transfer r run rest ≡ ok out
      → out.0.attempts ≡ n + 1
      → nth_run run rest n ≡ some x
      → Elem x.snapshot (s.current ∷ s.history)
      → Unchanged out.1.writes x.snapshot s.current
      → perform_all out.1.writes s.current ≡ ok db
      → Step s (commit db s)
  create_transfer-Step s r run rest out n x db h count at old same done =
      let c = create_transfer_ok r run rest out h in
      let result =
        (apply_transfer_ok _ r c.committed.draw (open_session c.committed.snapshot) out
          c.applied).result in
      let here : n ≡ c.position =
        omega (arith, count, ap (λ (y : LedgerWriteResult). y.attempts) result) in
      let is_x : c.committed ≡ x =
        some_eq (sym c.scheduled ∙ ap (nth_run run rest) (sym here) ∙ at) in
      Step.transfer (c.position + 1) r c.committed.draw c.committed.snapshot db out
        (subst (λ (y : Run). Elem y.snapshot (s.current ∷ s.history)) (sym is_x) old)
        c.distinct_accounts c.applied
        (subst (λ (y : Run). Unchanged out.1.writes y.snapshot s.current) (sym is_x) same) done refl
