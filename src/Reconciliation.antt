-- ===== src/Reconciliation.antt =====
-- app/services/reconciliation.py: the integrity report, one aggregation after another over one
-- snapshot of the database. Object ids stand for their hexadecimal strings.
use ledgerlock.Errors.{◌>>◌, ◌>>=◌, err, ok}
pub mod Sums
pub mod Groups
pub mod Overdrawn
pub mod Healthy
pub mod Detects
pub mod Uncovered
pub mod Thorough
use ledgerlock.Database.{Database}
use ledgerlock.Mongo.{Mongo}
use ledgerlock.Models.{
  system, user, is_credit, is_debit, Time, is_user, Account, Transaction, ObjectId, LedgerEntry,
}
use ledgerlock.Base.{
  inr, inl, arith, refl, suc, zero, false, some, none, all, ◌&&◌, eqb_ℤ, same_text, ◌||◌, count_by,
  is_empty, ◌++◌, Text, map, sum_by, ltb_ℤ, ◌==◌, not, length, Bool, ℤ, List, pos, true, ◌∷◌, [], ℕ,
}

pub record ReconciliationReport : Type 0 where
  pub balanced : Bool
  pub healthy : Bool
  pub net_signed_minor : ℤ
  pub total_entries : ℕ
  pub total_transactions : ℕ
  pub entries_without_transaction : ℕ
  pub unbalanced_transaction_groups : ℕ
  pub negative_user_accounts : List ObjectId
  pub per_currency_net_minor : List (Text × ℤ)
  pub checked_at : Time

pub record LogSummary : Type 0 where
  pub healthy : Bool
  pub net_signed_minor : ℤ
  pub total_entries : ℕ
  pub total_transactions : ℕ
  pub negative_user_account_count : ℕ

abbrev pub signed_amount : LedgerEntry → ℤ
signed_amount e = e.signed_amount_minor

-- A row of `_count_unbalanced_transaction_groups`.
pub record GroupRow : Type 0 where
  pub entry_count : ℕ
  pub net : ℤ
  pub debits : ℕ
  pub credits : ℕ

unfoldable pub group_row : List LedgerEntry → GroupRow
group_row docs = record {
  entry_count = length docs;
  net = sum_by signed_amount docs;
  debits = count_by (λ (e : LedgerEntry). is_debit e.direction) docs;
  credits = count_by (λ (e : LedgerEntry). is_credit e.direction) docs;
}

-- The `$or` of the four `$ne` tests.
unfoldable pub is_unbalanced : GroupRow → Bool
is_unbalanced g =
    not (g.entry_count == 2)
    || not (g.debits == 1)
    || not (g.credits == 1)
    || not (eqb_ℤ g.net (pos 0))

-- A row of `_find_negative_user_accounts`.
pub record BalanceRow : Type 0 where
  pub account_id : ObjectId
  pub balance : ℤ

abbrev pub is_negative : BalanceRow → Bool
is_negative row = ltb_ℤ row.balance (pos 0)

-- `$unwind`: a row for each joined document.
unfoldable pub unwind : {A B : Type 0} → List (A × List B) → List (A × B)
unwind [] = []
unwind ((a, []) ∷ l) = unwind l
unwind ((a, b ∷ bs) ∷ l) = (a, b) ∷ (map (λ c. (a, c)) bs ++ unwind l)

-- `rows[0]` of a `$count`, or 0 without rows.
abbrev pub row_or_zero : List ℕ → ℕ
row_or_zero [] = 0
row_or_zero (n ∷ l) = n

abbrev pub row_or_zeros : List (ℤ × ℕ) → ℤ × ℕ
row_or_zeros [] = (pos 0, 0)
row_or_zeros (row ∷ l) = row

module _ ⦃m : Mongo⦄ where
  -- `$count`
  unfoldable pub count_stage : {A : Type 0} → List A → ℕ
  count_stage docs =
      row_or_zero (m.group (λ (_ _ : Unit {0}). true) (λ _. tt) (λ _ l. length l) docs)

  -- `_net_and_count`
  unfoldable pub net_and_count : List LedgerEntry → ℤ × ℕ
  net_and_count entries = row_or_zeros (
      m.group (λ (_ _ : Unit {0}). true) (λ _. tt) (λ _ l. (sum_by signed_amount l, length l))
        entries)

  -- `_net_per_currency`
  unfoldable pub net_per_currency : List LedgerEntry → List (Text × ℤ)
  net_per_currency entries =
      m.group same_text (λ (e : LedgerEntry). e.currency) (λ k docs. (k, sum_by signed_amount docs))
        entries

  -- `_count_entries_without_transaction`
  unfoldable pub count_entries_without_transaction : List Transaction → List LedgerEntry → ℕ
  count_entries_without_transaction transactions entries = count_stage (
      m.find (λ (row : LedgerEntry × List Transaction). is_empty row.1)
        (m.lookup (λ (e : LedgerEntry) (t : Transaction). e.transaction_id == t.id) transactions
          entries))

  -- `_count_unbalanced_transaction_groups`
  unfoldable pub count_unbalanced_transaction_groups : List LedgerEntry → ℕ
  count_unbalanced_transaction_groups entries = count_stage (
      m.find is_unbalanced (
        m.group (λ a b. a == b) (λ (e : LedgerEntry). e.transaction_id) (λ _ docs. group_row docs)
          entries))

  -- `_find_negative_user_accounts`
  unfoldable pub find_negative_user_accounts : List Account → List LedgerEntry → List ObjectId
  find_negative_user_accounts accounts entries =
      map (λ (row : BalanceRow × Account). row.0.account_id)
        (m.find (λ (row : BalanceRow × Account). is_user row.1.account_type)
          (unwind (
            m.lookup (λ (row : BalanceRow) (a : Account). row.account_id == a.id) accounts
              (m.find is_negative (
                m.group (λ a b. a == b) (λ (e : LedgerEntry). e.account_id)
                  (λ k docs. record { account_id = k; balance = sum_by signed_amount docs })
                  entries)))))

  -- `_gather_report`; `count_documents({})` counts all transactions.
  unfoldable pub gather_report : Database → Time → ReconciliationReport
  gather_report db now =
      let (net, total) = net_and_count db.ledger_entries in
      let per_currency = net_per_currency db.ledger_entries in
      let orphans = count_entries_without_transaction db.transactions db.ledger_entries in
      let unbalanced = count_unbalanced_transaction_groups db.ledger_entries in
      let negative = find_negative_user_accounts db.accounts db.ledger_entries in
      let balanced =
        eqb_ℤ net (pos 0) && all (λ (row : Text × ℤ). eqb_ℤ row.1 (pos 0)) per_currency in
      record {
        balanced = balanced;
        healthy = balanced && orphans == 0 && unbalanced == 0 && is_empty negative;
        net_signed_minor = net;
        total_entries = total;
        total_transactions = length db.transactions;
        entries_without_transaction = orphans;
        unbalanced_transaction_groups = unbalanced;
        negative_user_accounts = negative;
        per_currency_net_minor = per_currency;
        checked_at = now;
      }

  -- `reconcile`: every query of the report reads the one snapshot of its transaction.
  unfoldable pub reconcile : Database → Time → ReconciliationReport
  reconcile snapshot now = gather_report snapshot now

  -- `summarise_for_log`
  unfoldable pub summarise_for_log : Database → Time → LogSummary
  summarise_for_log snapshot now =
      let report = reconcile snapshot now in
      record {
        healthy = report.healthy;
        net_signed_minor = report.net_signed_minor;
        total_entries = report.total_entries;
        total_transactions = report.total_transactions;
        negative_user_account_count = length report.negative_user_accounts;
      }
