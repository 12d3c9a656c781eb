-- ===== src/Reconciliation/Detects.antt =====
-- What a healthy report says of any database, also of one that others have written to.
use ledgerlock.Reconciliation.Groups.{has_header}
use ledgerlock.Database.{Database}
use ledgerlock.Reconciliation.{
  find_negative_user_accounts, count_unbalanced_transaction_groups, net_per_currency, net_and_count,
  signed_amount, count_entries_without_transaction, gather_report,
}
use ledgerlock.Mongo.{Mongo}
use ledgerlock.Models.{Time, LedgerEntry, Transaction}
use ledgerlock.Base.{
  All-mapped, eqb_ℤ-true, ◌∙◌, sym, ap, ℤ, Text, all, eqb_ℤ, ◌&&◌, All-map_pred, sum_by, Bool-cases,
  is_empty, length, ◌≡◌, ◌==◌, All, Bool, List, keep, ℕ, any, pos, inr, inl, arith, refl, false,
  true, ◌∷◌, [],
}
use ledgerlock.Reconciliation.Healthy.{net_and_count_sums, count_stage-length}

pub nothing_kept :
    {A : Type 0} (p : A → Bool) (l : List A) → length (keep p l) ≡ 0 → All (λ x. p x ≡ false) l
unfolding keep
nothing_kept p [] h = tt
nothing_kept p (x ∷ l) h = elim (Bool-cases (p x)) [
  | inl y ↦ absurd (some_left x (keep p l) (rw y at h))
  | inr n ↦ (n, nothing_kept p l (rw n at h))
]
  where
    some_left : {A : Type 0} (x : A) (r : List A) → length (x ∷ r) ≡ 0 → ⊥
    some_left x r e = omega (arith, e)

any_kept : {A : Type 0} (p : A → Bool) (l : List A) → is_empty (keep p l) ≡ false → any p l ≡ true
unfolding any keep
any_kept p [] h = absurd (cc)
any_kept p (x ∷ l) h = ground (arith, any_kept p l)

pub eq_zero : (n : ℕ) → (n == 0) ≡ true → n ≡ 0
eq_zero n h = ground arith

pub healthy_parts :
    (a b c d e : Bool)
    → (a && b && c && d && e) ≡ true
    → (a ≡ true) × (b ≡ true) × (c ≡ true) × (d ≡ true) × (e ≡ true)
healthy_parts a b c d e h = ground arith

module _ ⦃m : Mongo⦄ where
  orphans_none :
      (ts : List Transaction) (es : List LedgerEntry)
      → count_entries_without_transaction ts es ≡ 0
      → All (λ e. any (has_header e) ts ≡ true) es
  unfolding count_entries_without_transaction
  orphans_none ts es h =
      All-map_pred (λ (e : LedgerEntry). is_empty (keep (has_header e) ts) ≡ false) _
        (λ e. any_kept (has_header e) ts) es
        (All-mapped (λ (row : LedgerEntry × List Transaction). is_empty row.1 ≡ false)
          (λ e. (e, keep (has_header e) ts)) es
          (nothing_kept (λ (row : LedgerEntry × List Transaction). is_empty row.1) _
            (rw (count_stage-length, m.find_keep, m.lookup_rows) at h)))

  pub gather_report_detects :
      (db : Database) (now : Time)
      → (gather_report db now).healthy ≡ true
      → (sum_by signed_amount db.ledger_entries ≡ pos 0)
        × All (λ e. any (has_header e) db.transactions ≡ true) db.ledger_entries
        × ((gather_report db now).total_entries ≡ length db.ledger_entries)
        × ((gather_report db now).total_transactions ≡ length db.transactions)
  unfolding gather_report
  gather_report_detects db now h =
      let (zero_net, _, no_orphan, _, _) =
        healthy_parts (eqb_ℤ (net_and_count db.ledger_entries).0 (pos 0))
          (all (λ (row : Text × ℤ). eqb_ℤ row.1 (pos 0)) (net_per_currency db.ledger_entries))
          (count_entries_without_transaction db.transactions db.ledger_entries == 0)
          (count_unbalanced_transaction_groups db.ledger_entries == 0)
          (is_empty (find_negative_user_accounts db.accounts db.ledger_entries)) h in
      (
        ap (λ (x : ℤ × ℕ). x.0) (sym (net_and_count_sums db.ledger_entries))
            ∙ eqb_ℤ-true _ _ zero_net,
        orphans_none db.transactions db.ledger_entries (eq_zero _ no_orphan),
        ap (λ (x : ℤ × ℕ). x.1) (net_and_count_sums db.ledger_entries),
        refl,
      )
