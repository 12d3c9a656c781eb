-- ===== src/Reconciliation/Thorough.antt =====
-- What a healthy report says of the groups, the currencies and the USER accounts of any database.
use ledgerlock.Reconciliation.Healthy.{count_stage-length}
use ledgerlock.Database.{Database}
use ledgerlock.Balance.{get_available_balance_minor}
use ledgerlock.Reconciliation.Overdrawn.{Covered}
use ledgerlock.Balance.Laws.{balance_at, balance-compute_balance}
use ledgerlock.Mongo.{Mongo}
use ledgerlock.Models.{is_user, Time, is_credit, is_debit, Account, LedgerEntry}
use ledgerlock.Reconciliation.{
  reconcile, count_entries_without_transaction, net_and_count, GroupRow,
  find_negative_user_accounts, net_per_currency, signed_amount, BalanceRow, group_row,
  count_unbalanced_transaction_groups, is_unbalanced, gather_report,
}
use ledgerlock.Reconciliation.Groups.{has_header}
use ledgerlock.Reconciliation.Detects.{gather_report_detects, nothing_kept, eq_zero, healthy_parts}
use ledgerlock.Reconciliation.Uncovered.{uncovered, row_of, rows-Covered, empty_of_map}
use ledgerlock.Mongo.Laws.{All-group_rows}
use ledgerlock.Base.{
  any, ◌≤ℤ◌, All_of_all, eq_of_same_text, eq_of_==, all, subst, is_empty, same_text, All-map_pred,
  eqb_ℤ-true, sym, sum_by, eqb_ℤ, ◌||◌, count_by, ◌==◌, not, length, All, ◌≡◌, ℤ, Bool, keep, List,
  ℕ, pos, arith, false, true, Text,
}

-- One debit and one credit, and nothing else, that add up to nothing.
abbrev pub IsClean : List LedgerEntry → Type 0
IsClean docs =
    (length docs ≡ 2)
    × (count_by (λ (e : LedgerEntry). is_debit e.direction) docs ≡ 1)
    × (count_by (λ (e : LedgerEntry). is_credit e.direction) docs ≡ 1)
    × (sum_by signed_amount docs ≡ pos 0)

balanced_clean :
    (n d c : ℕ) (net : ℤ)
    → (not (n == 2) || not (d == 1) || not (c == 1) || not (eqb_ℤ net (pos 0))) ≡ false
    → (n ≡ 2) × (d ≡ 1) × (c ≡ 1) × (eqb_ℤ net (pos 0) ≡ true)
balanced_clean n d c net h = ground arith

group_row-IsClean :
    (docs : List LedgerEntry) → is_unbalanced (group_row docs) ≡ false → IsClean docs
unfolding is_unbalanced group_row
group_row-IsClean docs h =
    let (two, one, other, zero_net) =
      balanced_clean (length docs) (count_by (λ (e : LedgerEntry). is_debit e.direction) docs)
        (count_by (λ (e : LedgerEntry). is_credit e.direction) docs) (sum_by signed_amount docs)
        h in
    (two, one, other, eqb_ℤ-true (sum_by signed_amount docs) (pos 0) zero_net)

abbrev pub same_group : LedgerEntry → LedgerEntry → Bool
same_group e f = e.transaction_id == f.transaction_id

abbrev pub same_currency : LedgerEntry → LedgerEntry → Bool
same_currency e f = same_text e.currency f.currency

module _ ⦃m : Mongo⦄ where
  groups-IsClean :
      (es : List LedgerEntry)
      → count_unbalanced_transaction_groups es ≡ 0
      → All (λ e. IsClean (keep (same_group e) es)) es
  unfolding count_unbalanced_transaction_groups
  groups-IsClean es h =
      All-map_pred (λ (e : LedgerEntry). is_unbalanced (group_row (keep (same_group e) es)) ≡ false)
        (λ e. IsClean (keep (same_group e) es))
        (λ e clean. group_row-IsClean (keep (same_group e) es) clean) es
        (All-group_rows (λ (row : GroupRow). is_unbalanced row ≡ false) (λ a b. a == b)
          (λ (e : LedgerEntry). e.transaction_id) (λ _ docs. group_row docs) es eq_of_==
          (nothing_kept is_unbalanced _ (rw (count_stage-length, m.find_keep) at h)))

  currencies_zero :
      (es : List LedgerEntry)
      → all (λ (row : Text × ℤ). eqb_ℤ row.1 (pos 0)) (net_per_currency es) ≡ true
      → All (λ e. sum_by signed_amount (keep (same_currency e) es) ≡ pos 0) es
  unfolding net_per_currency
  currencies_zero es h =
      All-map_pred
        (λ (e : LedgerEntry).
          eqb_ℤ (sum_by signed_amount (keep (same_currency e) es)) (pos 0) ≡ true)
        (λ e. sum_by signed_amount (keep (same_currency e) es) ≡ pos 0)
        (λ e zero_net.
          eqb_ℤ-true (sum_by signed_amount (keep (same_currency e) es)) (pos 0) zero_net)
        es
        (All-group_rows (λ (row : Text × ℤ). eqb_ℤ row.1 (pos 0) ≡ true) same_text
          (λ (e : LedgerEntry). e.currency) (λ k docs. (k, sum_by signed_amount docs)) es
          eq_of_same_text (All_of_all (λ (row : Text × ℤ). eqb_ℤ row.1 (pos 0)) _ h))

  users-Covered :
      (l : List Account) (es : List LedgerEntry)
      → is_empty (find_negative_user_accounts l es) ≡ true
      → All (λ e. Covered l (row_of es e.account_id)) es
  unfolding find_negative_user_accounts
  users-Covered l es h =
      All-group_rows (Covered l) (λ a b. a == b) (λ (e : LedgerEntry). e.account_id)
        (λ k docs. record { account_id = k; balance = sum_by signed_amount docs }) es eq_of_==
        (rows-Covered l _ (
          empty_of_map (λ (row : BalanceRow × Account). row.0.account_id) _
            (rw (m.find_keep, m.lookup_rows, m.find_keep) at h)))

  parts_thorough :
      (db : Database) (now : Time)
      → (gather_report db now).healthy ≡ true
      → All (λ e. IsClean (keep (same_group e) db.ledger_entries)) db.ledger_entries
        × All
            (λ e. sum_by signed_amount (keep (same_currency e) db.ledger_entries) ≡ pos 0)
            db.ledger_entries
        × All
            (λ (a : Account). pos 0 ≤ℤ get_available_balance_minor a.id db.ledger_entries)
            (keep (λ (a : Account). is_user a.account_type) db.accounts)
  unfolding gather_report get_available_balance_minor
  parts_thorough db now h =
      let (_, currencies, _, groups, users) =
        healthy_parts (eqb_ℤ (net_and_count db.ledger_entries).0 (pos 0))
          (all (λ (row : Text × ℤ). eqb_ℤ row.1 (pos 0)) (net_per_currency db.ledger_entries))
          (count_entries_without_transaction db.transactions db.ledger_entries == 0)
          (count_unbalanced_transaction_groups db.ledger_entries == 0)
          (is_empty (find_negative_user_accounts db.accounts db.ledger_entries)) h in
      (
        groups-IsClean db.ledger_entries (eq_zero _ groups),
        currencies_zero db.ledger_entries currencies,
        All-map_pred (λ (a : Account). pos 0 ≤ℤ balance_at a.id db.ledger_entries)
            (λ (a : Account). pos 0 ≤ℤ get_available_balance_minor a.id db.ledger_entries)
            (λ a above.
              subst (λ (x : ℤ). pos 0 ≤ℤ x) (sym (balance-compute_balance a.id db.ledger_entries))
                above)
            _
            (uncovered db.accounts db.ledger_entries
              (users-Covered db.accounts db.ledger_entries users)),
      )

  -- A report is healthy only of a database in which the amounts of all entries add up to nothing, as
  -- do those of each currency; in which every entry has its transaction, and the entries of each
  -- transaction are one debit and one credit that add up to nothing; and in which every USER account is
  -- at zero or above, however the entries came there. It counts the entries and the transactions.
  pub reconcile_thorough :
      (db : Database) (now : Time)
      → (reconcile db now).healthy ≡ true
      → (sum_by signed_amount db.ledger_entries ≡ pos 0)
        × All (λ e. any (has_header e) db.transactions ≡ true) db.ledger_entries
        × All (λ e. IsClean (keep (same_group e) db.ledger_entries)) db.ledger_entries
        × All
            (λ e. sum_by signed_amount (keep (same_currency e) db.ledger_entries) ≡ pos 0)
            db.ledger_entries
        × All
            (λ (a : Account). pos 0 ≤ℤ get_available_balance_minor a.id db.ledger_entries)
            (keep (λ (a : Account). is_user a.account_type) db.accounts)
        × ((reconcile db now).total_entries ≡ length db.ledger_entries)
        × ((reconcile db now).total_transactions ≡ length db.transactions)
  unfolding reconcile
  reconcile_thorough db now h =
      let (zero_net, headed, entries, transactions) = gather_report_detects db now h in
      let (groups, currencies, covered) = parts_thorough db now h in
      (zero_net, headed, groups, currencies, covered, entries, transactions)
