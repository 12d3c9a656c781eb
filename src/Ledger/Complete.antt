-- ===== src/Ledger/Complete.antt =====
-- When a run of `_apply_transfer` returns: the conditions under which no guard and no index stops it.
use ledgerlock.Ledger.Effects.{transferred}
use mathlib.Core.List.{append_assoc}
use ledgerlock.Database.Laws.{has_id}
use ledgerlock.Models.Laws.{create_entry_total, transaction_document_of, entry_of}
use ledgerlock.Balance.{get_available_balance_minor}
use ledgerlock.Database.{
  Write, increment, insert_entries, insert_transaction, insert_many, transaction_validator,
  ledger_entry_validator, perform, clash_entry, clash_transaction, account_by_id,
  transaction_by_key, Database,
}
use ledgerlock.Mongo.{insert_checked, Mongo}
use ledgerlock.Ledger.{
  open_session, write, check_funds, apply_transfer, header, Draw, Transfer, validate_participants,
}
use ledgerlock.Models.{
  LedgerEntry, Time, EntryDirection, is_currency_code, ObjectId, Transaction, is_idempotency_key,
  is_user, is_transaction_document, Account,
}
use ledgerlock.Errors.{ok}
use ledgerlock.Base.{
  Bool-cases, ℕ, update_first, List, if◌then◌else◌, ap, ltb_ℤ, neg, ==_refl, any-append, eqb_ℤ_refl,
  leb_ℤ, ◌++◌, ℤ, length, leb, ◌==◌, any, ◌≤ℤ◌, same_text_refl, ◌≡◌, Text, Option, pos, inr, inl,
  arith, refl, false, true, none, ◌∷◌, [],
}
use ledgerlock.Ledger.Guards.{record_of, lock_of, result_of, credit_of, debit_of, Participants}

-- The request can be paid from this database, with these ids.
pub record Payable ⦃m : Mongo⦄ (r : Transfer) (d : Draw) (db : Database) : Type 0 where
  pub source : Account
  pub destination : Account
  pub key_unused : transaction_by_key r.idempotency_key db ≡ none
  pub participants :
      Participants
        (account_by_id r.source_account_id db)
        (account_by_id r.destination_account_id db)
        r.currency
        (source, destination)
  pub well_formed : is_transaction_document (header r d) ≡ true
  pub covered :
      is_user source.account_type ≡ true
      → r.amount_minor ≤ℤ get_available_balance_minor r.source_account_id db.ledger_entries
  pub new_header : any (clash_transaction (header r d)) db.transactions ≡ false
  pub new_debit : any (clash_entry (debit_of r d)) db.ledger_entries ≡ false
  pub new_credit : any (clash_entry (credit_of r d)) db.ledger_entries ≡ false
  pub two_ids : (d.credit_entry_id == d.debit_entry_id) ≡ false

pub validate_participants_total :
    (s t : Option Account) (currency : Text) (a b : Account)
    → Participants s t currency (a, b)
    → validate_participants s t currency ≡ ok (a, b)
unfolding validate_participants
validate_participants_total s t currency a b p =
    rw
      (
        p.source_found,
        p.destination_found,
        p.source_active,
        p.destination_active,
        p.source_currency,
        p.destination_currency,
        same_text_refl currency,
      )
      refl

leb_one : (n : ℤ) → pos 1 ≤ℤ n → leb_ℤ (pos 1) n ≡ true
leb_one n h = ground arith

well_formed_parts :
    (t : Transaction)
    → is_transaction_document t ≡ true
    → (leb 8 (length t.idempotency_key) ≡ true)
      × (leb (length t.idempotency_key) 128 ≡ true)
      × (pos 1 ≤ℤ t.amount_minor)
      × (is_currency_code t.currency ≡ true)
      × (leb (length t.description) 280 ≡ true)
unfolding is_transaction_document is_idempotency_key
well_formed_parts t h = (ground arith, ground arith, ground arith, ground arith, ground arith)

module _ ⦃m : Mongo⦄ where
  transaction_valid :
      (t : Transaction) → is_transaction_document t ≡ true → transaction_validator t ≡ true
  unfolding transaction_validator
  transaction_valid t h =
      let (short, long, positive, currency, description) = well_formed_parts t h in
      rw
        (
          short,
          long,
          leb_one t.amount_minor positive,
          m.currency_pattern_code t.currency currency,
          description,
        )
        refl

  perform_transaction_total :
      (t : Transaction) (db : Database)
      → is_transaction_document t ≡ true
      → any (clash_transaction t) db.transactions ≡ false
      → perform (insert_transaction t) db
        ≡ ok (record db { transactions = db.transactions ++ t ∷ [] })
  unfolding perform insert_checked
  perform_transaction_total t db h fresh =
      rw (m.insert_one_checked, transaction_valid t h, fresh) refl

  entry_valid :
      (i k a : ObjectId) (direction : EntryDirection) (n : ℤ) (c : Text) (at : Time)
      → pos 1 ≤ℤ n
      → is_currency_code c ≡ true
      → ledger_entry_validator (entry_of i k a direction n c at) ≡ true
  unfolding ledger_entry_validator
  entry_valid i k a EntryDirection.debit n c at p h =
      rw (m.currency_pattern_code c h, leb_one n p, eqb_ℤ_refl (neg n)) refl
  entry_valid i k a EntryDirection.credit n c at p h =
      rw (m.currency_pattern_code c h, leb_one n p, eqb_ℤ_refl n) refl

  perform_entries_total :
      (r : Transfer) (d : Draw) (db : Database)
      → pos 1 ≤ℤ r.amount_minor
      → is_currency_code r.currency ≡ true
      → any (clash_entry (debit_of r d)) db.ledger_entries ≡ false
      → any (clash_entry (credit_of r d)) db.ledger_entries ≡ false
      → (d.credit_entry_id == d.debit_entry_id) ≡ false
      → perform (insert_entries (debit_of r d ∷ credit_of r d ∷ [])) db
        ≡ ok (record db { ledger_entries = db.ledger_entries ++ debit_of r d ∷ credit_of r d ∷ [] })
  unfolding perform insert_many insert_checked any clash_entry
  perform_entries_total r d db p c nd nc two =
      rw
        (
          m.insert_one_checked,
          entry_valid d.debit_entry_id d.transaction_id r.source_account_id EntryDirection.debit
              r.amount_minor r.currency d.debit_time p c,
          nd,
        )
        (rw
          (
            m.insert_one_checked,
            entry_valid d.credit_entry_id d.transaction_id r.destination_account_id
                EntryDirection.credit r.amount_minor r.currency d.credit_time p c,
            any-append (clash_entry (credit_of r d)) db.ledger_entries (debit_of r d ∷ []),
            nc,
            two,
            ==_refl d.transaction_id,
          )
          (ap (λ (l : List LedgerEntry). ok (record db { ledger_entries = l }))
            (append_assoc db.ledger_entries (debit_of r d ∷ []) (credit_of r d ∷ []))))

  abbrev locked : Transfer → Account → Database → Database
  locked r source db = record db {
    accounts =
        if is_user source.account_type
        then update_first (has_id r.source_account_id) increment db.accounts
        else db.accounts;
  }

  enough : (x a : ℤ) → a ≤ℤ x → ltb_ℤ x a ≡ false
  enough x a h = ground arith

  check_funds_total :
      (source : Account) (r : Transfer) (db : Database)
      → (is_user source.account_type ≡ true
          → r.amount_minor ≤ℤ get_available_balance_minor r.source_account_id db.ledger_entries)
      → check_funds source r (open_session db)
        ≡ ok (record { view = locked r source db; writes = lock_of r source })
  unfolding check_funds write perform get_available_balance_minor
  check_funds_total source r db covered = elim (Bool-cases (is_user source.account_type)) [
    | inl u ↦ rw (u, m.update_one_first, enough _ _ (covered u)) refl
    | inr n ↦ rw n refl
  ]

  -- A run on a database from which the request can be paid returns the header and the two entry ids,
  -- and leaves in its view the source locked, the header, the debit and the credit, and nothing else.
  pub apply_transfer_total :
      (attempts : ℕ) (r : Transfer) (d : Draw) (db : Database) (p : Payable r d db)
      → apply_transfer attempts r d (open_session db)
        ≡ ok (
          result_of attempts r d,
          record {
            view = transferred r d p.source db;
            writes = lock_of r p.source ++ record_of r d;
          },
        )
  unfolding apply_transfer write
  apply_transfer_total attempts r d db p =
      let (_, _, positive, currency, _) = well_formed_parts (header r d) p.well_formed in
      rw
        (
          p.key_unused,
          validate_participants_total _ _ r.currency p.source p.destination p.participants,
          check_funds_total p.source r db p.covered,
          transaction_document_of (header r d) p.well_formed,
          perform_transaction_total (header r d) (locked r p.source db) p.well_formed p.new_header,
          create_entry_total d.debit_entry_id d.transaction_id r.source_account_id
              EntryDirection.debit r.amount_minor r.currency d.debit_time positive currency,
          create_entry_total d.credit_entry_id d.transaction_id r.destination_account_id
              EntryDirection.credit r.amount_minor r.currency d.credit_time positive currency,
          perform_entries_total r d
              (record (locked r p.source db) { transactions = db.transactions ++ header r d ∷ [] })
              positive currency p.new_debit p.new_credit p.two_ids,
        )
        (ap
          (λ (ws : List Write).
            ok (result_of attempts r d, record { view = transferred r d p.source db; writes = ws }))
          (append_assoc (lock_of r p.source) (insert_transaction (header r d) ∷ [])
            (insert_entries (debit_of r d ∷ credit_of r d ∷ []) ∷ [])))
