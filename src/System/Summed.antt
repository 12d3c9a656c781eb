-- ===== src/System/Summed.antt =====
-- The totals of a balance, in every reachable state, against the entries themselves.
use ledgerlock.System.Typed.{HasSign, Reach-Typed}
use ledgerlock.System.{State, Reach}
use ledgerlock.Balance.Laws.{compute_balance-eq-row}
use ledgerlock.Balance.{
  ComputedBalance, compute_balance, balance_row, on_account, credited, debited,
}
use ledgerlock.Mongo.{Mongo}
use ledgerlock.Models.{LedgerEntry, ObjectId, EntryDirection, is_credit, is_debit}
use ledgerlock.Base.{
  ◌⊎◌, All, All-keep, Bool, Bool-cases, keep, length, sum_by, neg, int_laws, ◌+ℤ◌, ◌&&◌, ◌∙◌, ◌≡◌,
  List, ap, refl, true, false, inl, inr, [], ◌∷◌,
}

sum_credited :
    (p : LedgerEntry → Bool) (l : List LedgerEntry)
    → sum_by credited (keep p l)
      ≡ sum_by (λ (e : LedgerEntry). e.amount_minor) (keep (λ e. p e && is_credit e.direction) l)
unfolding keep sum_by
sum_credited p [] = refl
sum_credited p (e ∷ l) = elim (Bool-cases (p e)) [
  | inr n ↦ rw n (sum_credited p l)
  | inl y ↦ elim (Bool-cases (is_credit e.direction)) [
    | inl c ↦ rw (y, c, sum_credited p l) refl
    | inr d ↦ rw (y, d, sum_credited p l) (omega int_laws)
  ]
]

sum_debited :
    (p : LedgerEntry → Bool) (l : List LedgerEntry)
    → sum_by debited (keep p l)
      ≡ sum_by (λ (e : LedgerEntry). e.amount_minor) (keep (λ e. p e && is_debit e.direction) l)
unfolding keep sum_by
sum_debited p [] = refl
sum_debited p (e ∷ l) = elim (Bool-cases (p e)) [
  | inr n ↦ rw n (sum_debited p l)
  | inl y ↦ elim (Bool-cases (is_debit e.direction)) [
    | inl c ↦ rw (y, c, sum_debited p l) refl
    | inr d ↦ rw (y, d, sum_debited p l) (omega int_laws)
  ]
]

direction_cases :
    (d : EntryDirection)
    → ((is_credit d ≡ true) × (is_debit d ≡ false)) ⊎ ((is_credit d ≡ false) × (is_debit d ≡ true))
direction_cases EntryDirection.debit = inr (refl, refl)
direction_cases EntryDirection.credit = inl (refl, refl)

signed_split : (e : LedgerEntry) → HasSign e → e.signed_amount_minor ≡ credited e +ℤ neg (debited e)
signed_split e h = elim (direction_cases e.direction) [
  | inl c ↦ rw (h, c.0, c.1) (omega int_laws)
  | inr d ↦ rw (h, d.0, d.1) (omega int_laws)
]

sum_signed :
    (l : List LedgerEntry)
    → All HasSign l
    → sum_by (λ (e : LedgerEntry). e.signed_amount_minor) l
      ≡ sum_by credited l +ℤ neg (sum_by debited l)
unfolding sum_by
sum_signed [] h = omega int_laws
sum_signed (e ∷ l) h = rw (signed_split e h.0, sum_signed l h.1) (omega int_laws)

module _ ⦃m : Mongo⦄ where
  -- In every reachable state, the balance of an account is the sum of its credits' amounts less the sum
  -- of its debits' amounts; the two totals are these sums, and the count is that of its entries.
  pub compute_balance_totals :
      {s : State} (i : ObjectId)
      → Reach s
      → ((compute_balance i s.current.ledger_entries).total_credited_minor
          ≡ sum_by
              (λ (e : LedgerEntry). e.amount_minor)
              (keep (λ e. on_account i e && is_credit e.direction) s.current.ledger_entries))
        × ((compute_balance i s.current.ledger_entries).total_debited_minor
            ≡ sum_by
                (λ (e : LedgerEntry). e.amount_minor)
                (keep (λ e. on_account i e && is_debit e.direction) s.current.ledger_entries))
        × ((compute_balance i s.current.ledger_entries).balance_minor
            ≡ (compute_balance i s.current.ledger_entries).total_credited_minor
              +ℤ neg (compute_balance i s.current.ledger_entries).total_debited_minor)
        × ((compute_balance i s.current.ledger_entries).entry_count
            ≡ length (keep (on_account i) s.current.ledger_entries))
  unfolding balance_row
  compute_balance_totals {s} i reached =
      let es = s.current.ledger_entries in
      let typed = Reach-Typed reached in
      let row = compute_balance-eq-row i es in
      (
        ap (λ (b : ComputedBalance). b.total_credited_minor) row ∙ sum_credited (on_account i) es,
        ap (λ (b : ComputedBalance). b.total_debited_minor) row ∙ sum_debited (on_account i) es,
        rw row
            (sum_signed (keep (on_account i) es) (All-keep HasSign (on_account i) es typed.signs)),
        ap (λ (b : ComputedBalance). b.entry_count) row,
      )
