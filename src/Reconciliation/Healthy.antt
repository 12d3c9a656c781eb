-- ===== src/Reconciliation/Healthy.antt =====
-- The integrity report of a sound database, and of every state that the system reaches.
use ledgerlock.System.{Reach, State}
use ledgerlock.System.Sound.{Sound}
use ledgerlock.System.Invariant.{Reach-Inv}
use ledgerlock.Reconciliation.Groups.{header_group, has_header, headed, of_header, is_header}
use ledgerlock.Database.{Database}
use ledgerlock.Reconciliation.Sums.{length-Paired, net_zero, net_zero_in}
use ledgerlock.Reconciliation.Overdrawn.{find_negative_user_accounts-Sound, All-every}
use ledgerlock.Ledger.Pairs.{Paired}
use ledgerlock.Reconciliation.{
  group_row, is_unbalanced, GroupRow, gather_report, signed_amount, net_and_count, net_per_currency,
  count_stage, count_entries_without_transaction, count_unbalanced_transaction_groups,
}
use ledgerlock.Mongo.{Mongo}
use ledgerlock.Models.{Time, ObjectId, LedgerEntry, Transaction}
use ledgerlock.Base.{
  ◌∙◌, all_of_All, sym, keep_ne_nil, keep, All-map_pred, ◌+◌, ◌==◌, is_empty, All-map, any,
  keep_none, ℕ, ap, same_text, eqb_ℤ, ℤ, Text, All, length, ◌≡◌, List, sum_by, pos, inr, inl, refl,
  false, true, ◌∷◌, [],
}
use ledgerlock.Mongo.Laws.{All-group, group_null}

header_balanced :
    {ts : List Transaction} {es : List LedgerEntry}
    → Paired ts es
    → (k : ObjectId) → any (is_header k) ts ≡ true
    → is_unbalanced (group_row (keep (of_header k) es)) ≡ false
header_balanced p k known = elim (header_group k p) [
  | inl (unknown, _) ↦ absurd (cc (sym unknown ∙ known))
  | inr (_, balanced) ↦ balanced
]

module _ ⦃m : Mongo⦄ where
  -- `$count` counts.
  pub count_stage-length : {A : Type 0} (docs : List A) → count_stage docs ≡ length docs
  unfolding count_stage
  count_stage-length [] = rw (group_null (λ l. length l) []) refl
  count_stage-length (x ∷ docs) = rw (group_null (λ l. length l) (x ∷ docs)) refl

  pub net_and_count_sums :
      (es : List LedgerEntry) → net_and_count es ≡ (sum_by signed_amount es, length es)
  unfolding net_and_count sum_by
  net_and_count_sums [] =
      rw (group_null {R = ℤ × ℕ} (λ l. (sum_by signed_amount l, length l)) []) refl
  net_and_count_sums (e ∷ es) =
      rw (group_null {R = ℤ × ℕ} (λ l. (sum_by signed_amount l, length l)) (e ∷ es)) refl

  net_per_currency_zero :
      {ts : List Transaction} {es : List LedgerEntry}
      → Paired ts es
      → All (λ (row : Text × ℤ). eqb_ℤ row.1 (pos 0) ≡ true) (net_per_currency es)
  unfolding net_per_currency
  net_per_currency_zero {es = es} p =
      All-group (λ (row : Text × ℤ). eqb_ℤ row.1 (pos 0) ≡ true) same_text
        (λ (e : LedgerEntry). e.currency) (λ k docs. (k, sum_by signed_amount docs)) es
        (All-every _
          (λ (e : LedgerEntry). ap (λ (x : ℤ). eqb_ℤ x (pos 0)) (net_zero_in e.currency p)) es)

  no_orphans :
      {ts : List Transaction} {es : List LedgerEntry}
      → Paired ts es
      → count_entries_without_transaction ts es ≡ 0
  unfolding count_entries_without_transaction
  no_orphans {ts} {es} p =
      rw (count_stage-length, m.find_keep, m.lookup_rows)
        (ap (λ (l : List (LedgerEntry × List Transaction)). length l)
          (keep_none _ _ (
            All-map (λ (row : LedgerEntry × List Transaction). is_empty row.1 ≡ false)
              (λ e. (e, keep (has_header e) ts)) es
              (All-map_pred _ _ (λ (e : LedgerEntry). keep_ne_nil (has_header e) ts) es
                (headed p)))))

  all_balanced :
      {ts : List Transaction} {es : List LedgerEntry}
      → Paired ts es
      → count_unbalanced_transaction_groups es ≡ 0
  unfolding count_unbalanced_transaction_groups
  all_balanced {ts} {es} p =
      rw (count_stage-length, m.find_keep)
        (ap (λ (l : List GroupRow). length l)
          (keep_none is_unbalanced _ (
            All-group (λ g. is_unbalanced g ≡ false) (λ a b. a == b)
              (λ (e : LedgerEntry). e.transaction_id) (λ _ docs. group_row docs) es
              (All-map_pred _ _ (λ (e : LedgerEntry). header_balanced p e.transaction_id) es
                (headed p)))))

  -- The report of a sound database.
  pub gather_report-Sound :
      (db : Database) (now : Time)
      → Sound db
      → gather_report db now ≡ record {
        balanced = true;
        healthy = true;
        net_signed_minor = pos 0;
        total_entries = length db.transactions + length db.transactions;
        total_transactions = length db.transactions;
        entries_without_transaction = 0;
        unbalanced_transaction_groups = 0;
        negative_user_accounts = [];
        per_currency_net_minor = net_per_currency db.ledger_entries;
        checked_at = now;
      }
  unfolding gather_report
  gather_report-Sound db now sound =
      rw
        (
          net_and_count_sums db.ledger_entries,
          net_zero sound.paired,
          length-Paired sound.paired,
          no_orphans sound.paired,
          all_balanced sound.paired,
          find_negative_user_accounts-Sound db sound,
          all_of_All (λ (row : Text × ℤ). eqb_ℤ row.1 (pos 0)) _
              (net_per_currency_zero sound.paired),
        )
        refl

  -- The integrity report of every state that the system reaches is healthy and balanced, its net is
  -- zero, it lists no overdrawn account, and it counts two entries for each transaction.
  pub gather_report-Reach :
      {s : State}
      → Reach s
      → (now : Time)
      → ((gather_report s.current now).healthy ≡ true)
        × ((gather_report s.current now).balanced ≡ true)
        × ((gather_report s.current now).net_signed_minor ≡ pos 0)
        × ((gather_report s.current now).negative_user_accounts ≡ [])
        × ((gather_report s.current now).total_entries
            ≡ (gather_report s.current now).total_transactions
              + (gather_report s.current now).total_transactions)
  gather_report-Reach {s} reached now =
      rw (gather_report-Sound s.current now (Reach-Inv reached).sound)
        (refl, refl, refl, refl, refl)
