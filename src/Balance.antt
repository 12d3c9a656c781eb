-- ===== src/Balance.antt =====
-- app/services/balance_service.py: the balance as an aggregation over `ledger_entries`.
pub mod Laws
use ledgerlock.Base.{ℕ, Bool, true, List, [], ◌∷◌, ℤ, pos, ◌==◌, length, sum_by, if◌then◌else◌}
use ledgerlock.Models.{ObjectId, LedgerEntry, is_debit, is_credit}
use ledgerlock.Mongo.{Mongo}

pub record ComputedBalance : Type 0 where
  pub balance_minor : ℤ
  pub total_credited_minor : ℤ
  pub total_debited_minor : ℤ
  pub entry_count : ℕ

abbrev pub zero_balance : ComputedBalance
zero_balance = record {
  balance_minor = pos 0;
  total_credited_minor = pos 0;
  total_debited_minor = pos 0;
  entry_count = 0;
}

-- The accumulators of the pipeline's `$group`; `{"$sum": 1}` counts the documents.
abbrev pub credited : LedgerEntry → ℤ
credited e = if is_credit e.direction then e.amount_minor else pos 0

abbrev pub debited : LedgerEntry → ℤ
debited e = if is_debit e.direction then e.amount_minor else pos 0

unfoldable pub balance_row : List LedgerEntry → ComputedBalance
balance_row docs = record {
  balance_minor = sum_by (λ (e : LedgerEntry). e.signed_amount_minor) docs;
  total_credited_minor = sum_by credited docs;
  total_debited_minor = sum_by debited docs;
  entry_count = length docs;
}

abbrev pub on_account : ObjectId → LedgerEntry → Bool
on_account i e = e.account_id == i

-- `to_list(length=1)`, and ZERO_BALANCE where it has no row.
abbrev pub first_row : List ComputedBalance → ComputedBalance
first_row [] = zero_balance
first_row (row ∷ rows) = row

module _ ⦃m : Mongo⦄ where
  -- `_balance_pipeline`, run over the entries.
  unfoldable pub balance_pipeline : ObjectId → List LedgerEntry → List ComputedBalance
  unfolding balance_row
  balance_pipeline account_id entries =
      m.group (λ (_ _ : Unit {0}). true) (λ _. tt) (λ _ docs. balance_row docs)
        (m.find (on_account account_id) entries)

  unfoldable pub compute_balance : ObjectId → List LedgerEntry → ComputedBalance
  unfolding balance_pipeline
  compute_balance account_id entries = first_row (balance_pipeline account_id entries)

  -- `get_available_balance_minor`
  unfoldable pub get_available_balance_minor : ObjectId → List LedgerEntry → ℤ
  unfolding compute_balance
  get_available_balance_minor account_id entries =
      (compute_balance account_id entries).balance_minor
