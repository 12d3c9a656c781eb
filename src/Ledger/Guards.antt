-- ===== src/Ledger/Guards.antt =====
-- What the guards of a run have shown when they let it pass, and the writes of a run.
use mathlib.Core.List.{append-nil}
use ledgerlock.Base.{
  ℕ, ◌≡◌, sym, ◌∙◌, ap, subst, true, false, Option, none, some, List, [], ◌∷◌, ◌++◌, Text,
  eq_of_same_text, ℤ, ltb_ℤ, ltb_ℤ_false, ◌≤ℤ◌, arith, Bool-cases, inl, inr, if◌then◌else◌,
}
use ledgerlock.Errors.{on_ok, ok, ok_injective, raise_if, raise_if_passed}
use ledgerlock.Models.{Account, active, is_user, LedgerEntry, EntryDirection}
use ledgerlock.Models.Laws.{entry_of}
use ledgerlock.Mongo.{Mongo}
use ledgerlock.Database.{
  perform_all, Database, Write, increment_counter, insert_transaction, insert_entries, perform,
}
use ledgerlock.Database.Laws.{perform_counter}
use ledgerlock.Balance.{compute_balance}
use ledgerlock.Balance.Laws.{balance_at, balance-compute_balance}
use ledgerlock.Ledger.{
  Transfer, Draw, LedgerWriteResult, Session, header, validate_participants, write, check_funds,
}

abbrev pub debit_of : Transfer → Draw → LedgerEntry
debit_of r d =
    entry_of d.debit_entry_id d.transaction_id r.source_account_id EntryDirection.debit
      r.amount_minor r.currency d.debit_time

abbrev pub credit_of : Transfer → Draw → LedgerEntry
credit_of r d =
    entry_of d.credit_entry_id d.transaction_id r.destination_account_id EntryDirection.credit
      r.amount_minor r.currency d.credit_time

-- The serialisation write, which only a USER source has.
abbrev pub lock_of : Transfer → Account → List Write
lock_of r source =
    if is_user source.account_type then increment_counter r.source_account_id ∷ [] else []

-- The header and the two entries.
abbrev pub record_of : Transfer → Draw → List Write
record_of r d =
    insert_transaction (header r d) ∷ insert_entries (debit_of r d ∷ credit_of r d ∷ []) ∷ []

-- Both accounts are there, are ACTIVE, and hold the currency of the request.
pub record Participants (source destination : Option Account) (currency : Text)
    (p : Account × Account) : Type 0 where
  pub source_found : source ≡ some p.0
  pub destination_found : destination ≡ some p.1
  pub source_active : p.0.status ≡ active
  pub destination_active : p.1.status ≡ active
  pub source_currency : p.0.currency ≡ currency
  pub destination_currency : p.1.currency ≡ currency

pub validate_participants_ok :
    (source destination : Option Account) (currency : Text) (p : Account × Account)
    → validate_participants source destination currency ≡ ok p
    → Participants source destination currency p
unfolding validate_participants
validate_participants_ok none destination currency p h = absurd (cc)
validate_participants_ok (some a) none currency p h = absurd (cc)
validate_participants_ok (some a) (some b) currency p h = record {
  source_found = ground arith;
  destination_found = ground arith;
  source_active = ground arith;
  destination_active = ground arith;
  source_currency = ground (arith, eq_of_same_text a.currency currency);
  destination_currency = ground (arith, eq_of_same_text b.currency currency);
}

-- The result of a run, in terms of its request and draw.
abbrev pub result_of : ℕ → Transfer → Draw → LedgerWriteResult
result_of attempts r d = record {
  transaction_document = header r d;
  debit_entry_id = d.debit_entry_id;
  credit_entry_id = d.credit_entry_id;
  attempts = attempts;
}

module _ ⦃m : Mongo⦄ where
  pub perform_all-append :
      (xs ys : List Write) (db mid out : Database)
      → perform_all xs db ≡ ok mid
      → perform_all ys mid ≡ ok out
      → perform_all (xs ++ ys) db ≡ ok out
  unfolding perform_all
  perform_all-append [] ys db mid out h k = rw (ok_injective h) k
  perform_all-append (x ∷ xs) ys db mid out h k =
      on_ok (perform x db) _ h λ v e q. rw e (perform_all-append xs ys v mid out q k)

  -- A write of the session: done on its view, and noted.
  pub record Wrote (w : Write) (s s' : Session) : Type 0 where
    pub done : perform w s.view ≡ ok s'.view
    pub noted : s'.writes ≡ s.writes ++ w ∷ []

  pub write_ok : (w : Write) (s s' : Session) → write w s ≡ ok s' → Wrote w s s'
  unfolding write
  write_ok w s s' h = on_ok (perform w s.view) _ h λ v e q. record {
    done = e ∙ ap (λ (x : Session). ok x.view) (ok_injective q);
    noted = ap (λ (x : Session). x.writes) (sym (ok_injective q));
  }

  -- After step 3: a USER source covers the amount, and has the serialisation write.
  pub record Funded (r : Transfer) (source : Account) (s s' : Session) : Type 0 where
    pub covered :
        is_user source.account_type ≡ true
        → r.amount_minor ≤ℤ balance_at r.source_account_id s.view.ledger_entries
    pub locked : perform_all (lock_of r source) s.view ≡ ok s'.view
    pub noted : s'.writes ≡ s.writes ++ lock_of r source

  locked_funds :
      (r : Transfer) (source : Account) (s s' : Session)
      → is_user source.account_type ≡ true
      → Wrote (increment_counter r.source_account_id) s s'
      → ltb_ℤ
          (compute_balance r.source_account_id s'.view.ledger_entries).balance_minor
          r.amount_minor
        ≡ false
      → Funded r source s s'
  unfolding perform_all
  locked_funds r source s s' u w enough = record {
    covered = λ _.
        subst (λ (es : List LedgerEntry). r.amount_minor ≤ℤ balance_at r.source_account_id es)
          (ap (λ (x : Database). x.ledger_entries) (perform_counter _ _ _ w.done))
          (subst (λ (b : ℤ). r.amount_minor ≤ℤ b)
            (balance-compute_balance r.source_account_id s'.view.ledger_entries)
            (ltb_ℤ_false (compute_balance r.source_account_id s'.view.ledger_entries).balance_minor
              r.amount_minor enough));
    locked = rw (u, w.done);
    noted = rw u w.noted;
  }

  unlocked_funds :
      (r : Transfer) (source : Account) (s s' : Session)
      → is_user source.account_type ≡ false
      → s ≡ s'
      → Funded r source s s'
  unfolding perform_all
  unlocked_funds r source s s' n same = record {
    covered = λ u. absurd (cc (sym n ∙ u));
    locked = rw (n, same);
    noted = rw (n, same) (sym (append-nil _));
  }

  check_funds_user :
      (r : Transfer) (source : Account) (s s' : Session)
      → is_user source.account_type ≡ true
      → check_funds source r s ≡ ok s'
      → Funded r source s s'
  unfolding check_funds perform_all
  check_funds_user r source s s' u h =
      on_ok (write (increment_counter r.source_account_id) s) _ (rw u at h) λ s1 e h1.
        on_ok (raise_if _ _) _ h1 λ t passed h2.
          locked_funds r source s s' u
            (subst (Wrote (increment_counter r.source_account_id) s) (ok_injective h2)
              (write_ok _ s s1 e))
            (subst
              (λ (x : Session).
                ltb_ℤ (compute_balance r.source_account_id x.view.ledger_entries).balance_minor
                  r.amount_minor
                ≡ false)
              (ok_injective h2) (raise_if_passed _ _ passed))

  pub check_funds_ok :
      (r : Transfer) (source : Account) (s s' : Session)
      → check_funds source r s ≡ ok s'
      → Funded r source s s'
  unfolding check_funds perform_all
  check_funds_ok r source s s' h = elim (Bool-cases (is_user source.account_type)) [
    | inl u ↦ check_funds_user r source s s' u h
    | inr n ↦ unlocked_funds r source s s' n (ok_injective (rw n at h))
  ]
