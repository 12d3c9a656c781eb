-- ===== src/Balance/Laws.antt =====
-- The balance pipeline of app/services/balance_service.py against plain sums.
use ledgerlock.Base.{
  ◌≡◌, refl, sym, ap, true, List, [], ◌∷◌, ◌++◌, map, ℤ, pos, ◌+ℤ◌, arith, ◌==◌, keep, sum_by,
  keep-append, sum_by-append, if◌then◌else◌,
}
use ledgerlock.Models.{ObjectId, LedgerEntry}
use ledgerlock.Mongo.{Mongo, distinct}
use ledgerlock.Balance.{ComputedBalance, balance_row, on_account, first_row, compute_balance}

-- The sum of the signed amounts of one account's entries.
unfoldable pub balance_at : ObjectId → List LedgerEntry → ℤ
balance_at i es = sum_by (λ (e : LedgerEntry). e.signed_amount_minor) (keep (on_account i) es)

-- All keys are equal, so there is one group, unless there is no document.
one_group :
    (docs all : List LedgerEntry)
    → docs ≡ keep (λ _. true) all
    → first_row
        (map (λ (k : Unit {0}). balance_row docs) (distinct (λ _ _. true) (map (λ _. tt) all)))
      ≡ balance_row docs
unfolding keep distinct balance_row sum_by
one_group docs [] e = rw e
one_group docs (x ∷ all) e = refl

keep-true : (l : List LedgerEntry) → keep (λ _. true) l ≡ l
unfolding keep
keep-true [] = refl
keep-true (x ∷ l) = ap (λ (r : List LedgerEntry). x ∷ r) (keep-true l)

module _ ⦃m : Mongo⦄ where
  pub compute_balance-eq-row :
      (i : ObjectId) (es : List LedgerEntry)
      → compute_balance i es ≡ balance_row (keep (on_account i) es)
  unfolding compute_balance
  compute_balance-eq-row i es =
      rw (m.group_rows, m.find_keep, keep-true) (one_group _ _ (sym (keep-true _)))

  pub balance-compute_balance :
      (i : ObjectId) (es : List LedgerEntry)
      → (compute_balance i es).balance_minor ≡ balance_at i es
  unfolding balance_at balance_row
  balance-compute_balance i es =
      ap (λ (b : ComputedBalance). b.balance_minor) (compute_balance-eq-row i es)

-- Entries that are appended add their signed amount to their own account.
pub balance_at-append :
    (i : ObjectId) (es fs : List LedgerEntry)
    → balance_at i (es ++ fs) ≡ balance_at i es +ℤ balance_at i fs
unfolding balance_at
balance_at-append i es fs =
    rw (keep-append (on_account i) es fs)
      (sum_by-append _ (keep (on_account i) es) (keep (on_account i) fs))

pub balance_at-pair :
    (i : ObjectId) (d c : LedgerEntry)
    → balance_at i (d ∷ c ∷ [])
      ≡ (if d.account_id == i then d.signed_amount_minor else pos 0)
        +ℤ (if c.account_id == i then c.signed_amount_minor else pos 0)
unfolding balance_at keep sum_by ◌+ℤ◌
balance_at-pair i d c = ground arith
