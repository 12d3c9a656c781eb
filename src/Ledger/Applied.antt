-- ===== src/Ledger/Applied.antt =====
-- What a run of `_apply_transfer` that returns has checked and written.
use ledgerlock.Ledger.Guards.{
  Funded, Wrote, write_ok, check_funds_ok, Participants, validate_participants_ok, debit_of,
  credit_of, lock_of, record_of, result_of, perform_all-append,
}
use mathlib.Core.List.{append_assoc}
use mathlib.Core.Path.{subst₂}
use ledgerlock.Base.{
  ℕ, ◌≡◌, refl, sym, ◌∙◌, ap, subst, true, false, Option, none, some, [], ◌∷◌, ◌++◌, pos, ◌≤ℤ◌,
  is_some,
}
use ledgerlock.Errors.{
  duplicate_submission_error, rejected, on_ok, ok, ok_injective, raise_if, raise_if_passed,
}
use ledgerlock.Models.{
  Account, is_user, Transaction, LedgerEntry, EntryDirection, is_transaction_document,
  transaction_document, create_entry,
}
use ledgerlock.Models.Laws.{transaction_document_ok, create_entry_ok}
use ledgerlock.Mongo.{Mongo}
use ledgerlock.Database.{
  perform_all, insert_transaction, insert_entries, account_by_id, transaction_by_key,
}
use ledgerlock.Balance.Laws.{balance_at}
use ledgerlock.Ledger.{
  Transfer, Draw, LedgerWriteResult, Session, header, validate_participants, write, check_funds,
  apply_transfer,
}

module _ ⦃m : Mongo⦄ where
  -- Everything that a run which returns has checked in its snapshot, and what it has written.
  pub record Applied (attempts : ℕ) (r : Transfer) (d : Draw) (s : Session)
      (out : LedgerWriteResult × Session) : Type 0 where
    pub key_unused : transaction_by_key r.idempotency_key s.view ≡ none
    pub source : Account
    pub destination : Account
    pub participants :
        Participants
          (account_by_id r.source_account_id s.view)
          (account_by_id r.destination_account_id s.view)
          r.currency
          (source, destination)
    pub positive : pos 1 ≤ℤ r.amount_minor
    pub well_formed : is_transaction_document (header r d) ≡ true
    pub covered :
        is_user source.account_type ≡ true
        → r.amount_minor ≤ℤ balance_at r.source_account_id s.view.ledger_entries
    pub result : out.0 ≡ result_of attempts r d
    pub written : out.1.writes ≡ s.writes ++ (lock_of r source ++ record_of r d)
    pub viewed : perform_all (lock_of r source ++ record_of r d) s.view ≡ ok out.1.view

  is_some-none {ℓ} : {A : Type ℓ} (o : Option A) → is_some o ≡ false → o ≡ none
  is_some-none none h = refl
  is_some-none (some a) h = cc

  applied :
      (attempts : ℕ) (r : Transfer) (d : Draw) (s s1 s2 s3 : Session) (source destination : Account)
      (out : LedgerWriteResult × Session)
      → transaction_by_key r.idempotency_key s.view ≡ none
      → Participants
          (account_by_id r.source_account_id s.view)
          (account_by_id r.destination_account_id s.view)
          r.currency
          (source, destination)
      → pos 1 ≤ℤ r.amount_minor
      → is_transaction_document (header r d) ≡ true
      → Funded r source s s1
      → Wrote (insert_transaction (header r d)) s1 s2
      → Wrote (insert_entries (debit_of r d ∷ credit_of r d ∷ [])) s2 s3
      → (result_of attempts r d, s3) ≡ out
      → Applied attempts r d s out
  unfolding perform_all
  applied attempts r d s s1 s2 s3 source destination out unused p positive wf f w2 w3 e = record {
    key_unused = unused;
    source = source;
    destination = destination;
    participants = p;
    positive = positive;
    well_formed = wf;
    covered = f.covered;
    result = ap (λ (x : LedgerWriteResult × Session). x.0) (sym e);
    written = rw (← e, w3.noted, w2.noted, f.noted) (simp append_assoc);
    viewed = rw (← e) (
        perform_all-append (lock_of r source) (record_of r d) s.view s1.view s3.view f.locked
          (rw (w2.done, w3.done)));
  }

  pub apply_transfer_ok :
      (attempts : ℕ) (r : Transfer) (d : Draw) (s : Session) (out : LedgerWriteResult × Session)
      → apply_transfer attempts r d s ≡ ok out
      → Applied attempts r d s out
  unfolding apply_transfer
  apply_transfer_ok attempts r d s out h =
      on_ok
        (raise_if (is_some (transaction_by_key r.idempotency_key s.view))
          (rejected duplicate_submission_error))
        _ h
        λ _ unused h1.
          on_ok
            (validate_participants (account_by_id r.source_account_id s.view)
              (account_by_id r.destination_account_id s.view) r.currency)
            _ h1
            λ p valid h2. on_ok (check_funds p.0 r s) _ h2 λ s1 funds h3.
              on_ok (transaction_document (header r d)) _ h3 λ t doc h4.
                on_ok (write (insert_transaction t) s1) _ h4 λ s2 w2 h5.
                  on_ok
                    (create_entry d.debit_entry_id d.transaction_id r.source_account_id
                      EntryDirection.debit r.amount_minor r.currency d.debit_time)
                    _ h5
                    λ de debit h6.
                      on_ok
                        (create_entry d.credit_entry_id d.transaction_id r.destination_account_id
                          EntryDirection.credit r.amount_minor r.currency d.credit_time)
                        _ h6
                        λ ce credit h7.
                          on_ok (write (insert_entries (de ∷ ce ∷ [])) s2) _ h7 λ s3 w3 h8.
                            let (same_t, wf) = transaction_document_ok (header r d) t doc in
                            let (positive, same_d) =
                              create_entry_ok d.debit_entry_id d.transaction_id r.source_account_id
                                EntryDirection.debit r.amount_minor r.currency d.debit_time de
                                debit in
                            let (_, same_c) =
                              create_entry_ok d.credit_entry_id d.transaction_id
                                r.destination_account_id EntryDirection.credit r.amount_minor
                                r.currency d.credit_time ce credit in
                            applied attempts r d s s1 s2 s3 p.0 p.1 out
                              (is_some-none _ (raise_if_passed _ _ unused))
                              (validate_participants_ok _ _ _ p valid) positive wf
                              (check_funds_ok r p.0 s s1 funds)
                              (subst (λ (x : Transaction). Wrote (insert_transaction x) s1 s2)
                                same_t (write_ok (insert_transaction t) s1 s2 w2))
                              (subst₂
                                (λ (x y : LedgerEntry). Wrote (insert_entries (x ∷ y ∷ [])) s2 s3)
                                same_d same_c (write_ok (insert_entries (de ∷ ce ∷ [])) s2 s3 w3))
                              (ap
                                  (λ (x : Transaction). (
                                    record (result_of attempts r d) { transaction_document = x },
                                    s3,
                                  ))
                                  (sym same_t)
                                ∙ ok_injective h8)
