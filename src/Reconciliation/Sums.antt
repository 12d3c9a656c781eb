-- ===== src/Reconciliation/Sums.antt =====
-- Sums over a ledger of pairs: they are zero, over all entries and in each currency.
use ledgerlock.Reconciliation.{signed_amount}
use mathlib.Core.Path.{ap₂}
use ledgerlock.Ledger.Pairs.{nothing_written, pair, IsPair, Paired}
use ledgerlock.Models.{LedgerEntry, Transaction}
use ledgerlock.Base.{
  +ℤ_zero, ℤ, ◌+ℤ◌, neg, ◌∙◌, +ℤ_parts, keep-append, neg_parts, ap, length-append, sum_by-append,
  ◌+◌, eq_of_parts, Bool-cases, ◌≡◌, same_text, length, Bool, List, keep, Text, sum_by, pos, inr,
  inl, arith, refl, ◌∷◌, [],
}

-- A pair adds nothing.
pub pair_zero :
    (t : Transaction) (d c : LedgerEntry) → IsPair t d c → sum_by signed_amount (d ∷ c ∷ []) ≡ pos 0
unfolding sum_by
pair_zero t d c p =
    ap₂ (λ (x y : ℤ). x +ℤ (y +ℤ pos 0)) p.debit_signed p.credit_signed
    ∙ eq_of_parts _ _ (
        omega (
          arith,
          neg_parts t.amount_minor,
          +ℤ_parts t.amount_minor (pos 0),
          +ℤ_parts (neg t.amount_minor) (t.amount_minor +ℤ pos 0),
        ))

pub net_zero :
    {ts : List Transaction} {es : List LedgerEntry} → Paired ts es → sum_by signed_amount es ≡ pos 0
unfolding sum_by
net_zero nothing_written = refl
net_zero (pair {es = es} p t d c q _) =
    sum_by-append signed_amount es (d ∷ c ∷ [])
    ∙ ap₂ (λ (x y : ℤ). x +ℤ y) (net_zero p) (pair_zero t d c q)
    ∙ +ℤ_zero (pos 0)

abbrev pub in_currency : Text → LedgerEntry → Bool
in_currency k e = same_text k e.currency

pair_in_currency :
    (k : Text) (t : Transaction) (d c : LedgerEntry)
    → IsPair t d c
    → sum_by signed_amount (keep (in_currency k) (d ∷ c ∷ [])) ≡ pos 0
unfolding keep sum_by
pair_in_currency k t d c p = elim (Bool-cases (same_text k t.currency)) [
  | inl y ↦
      rw (ap (same_text k) p.debit_currency ∙ y, ap (same_text k) p.credit_currency ∙ y)
        (pair_zero t d c p)
  | inr n ↦ rw (ap (same_text k) p.debit_currency ∙ n, ap (same_text k) p.credit_currency ∙ n) refl
]

pub net_zero_in :
    {ts : List Transaction} {es : List LedgerEntry} (k : Text)
    → Paired ts es
    → sum_by signed_amount (keep (in_currency k) es) ≡ pos 0
unfolding sum_by keep
net_zero_in k nothing_written = refl
net_zero_in k (pair {es = es} p t d c q _) =
    ap (sum_by signed_amount) (keep-append (in_currency k) es (d ∷ c ∷ []))
    ∙ sum_by-append signed_amount (keep (in_currency k) es) (keep (in_currency k) (d ∷ c ∷ []))
    ∙ ap₂ (λ (x y : ℤ). x +ℤ y) (net_zero_in k p) (pair_in_currency k t d c q)
    ∙ +ℤ_zero (pos 0)

-- Two entries for each header.
pub length-Paired :
    {ts : List Transaction} {es : List LedgerEntry}
    → Paired ts es
    → length es ≡ length ts + length ts
length-Paired nothing_written = omega arith
length-Paired (pair {ts = ts} {es = es} p t d c _ _) =
    omega (arith, length-Paired p, length-append ts (t ∷ []), length-append es (d ∷ c ∷ []))
