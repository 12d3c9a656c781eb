-- ===== src/Ledger/Effects.antt =====
-- The writes of a transfer, applied to the database that they are committed to.
use ledgerlock.Database.Laws.{
  account_by_id_counter, perform_entries, perform_transaction, perform_counter, account_by_id-first,
  bump, has_id,
}
use ledgerlock.Errors.{ok_injective, on_ok, ok}
use ledgerlock.Balance.Laws.{balance_at-pair, balance_at-append, balance_at}
use ledgerlock.Ledger.Guards.{credit_of, debit_of, record_of, lock_of}
use ledgerlock.Models.{is_user, Account, ObjectId}
use ledgerlock.Database.{
  insert_entries, insert_transaction, increment_counter, increment, perform, clash_transaction,
  account_by_id, Database, perform_all,
}
use ledgerlock.Ledger.{header, Draw, Transfer}
use ledgerlock.Mongo.{Mongo}
use ledgerlock.Base.{
  subst, sym, inr, ap, inl, pos, ◌∙◌, neg, ◌&&◌, update_first, [], Bool-cases, false, ◌==◌, ◌∷◌,
  ◌++◌, if◌then◌else◌, any, ◌+ℤ◌, ◌≡◌, ◌≡◌, ◌≡◌, ℤ,
}

-- The database with the writes of a transfer in it.
abbrev pub transferred : Transfer → Draw → Account → Database → Database
transferred r d source db = record db {
  accounts =
      if is_user source.account_type
      then update_first (has_id r.source_account_id) increment db.accounts
      else db.accounts;
  transactions = db.transactions ++ header r d ∷ [];
  ledger_entries = db.ledger_entries ++ debit_of r d ∷ credit_of r d ∷ [];
}

module _ ⦃m : Mongo⦄ where
  perform_all-record :
      (r : Transfer) (d : Draw) (db db' : Database)
      → perform_all (record_of r d) db ≡ ok db'
      → (any (clash_transaction (header r d)) db.transactions ≡ false)
        × (db' ≡ record db {
          transactions = db.transactions ++ header r d ∷ [];
          ledger_entries = db.ledger_entries ++ debit_of r d ∷ credit_of r d ∷ [];
        })
  unfolding perform_all
  perform_all-record r d db db' h =
      on_ok (perform (insert_transaction (header r d)) db) _ h λ a e h1.
        on_ok (perform (insert_entries (debit_of r d ∷ credit_of r d ∷ [])) a) _ h1 λ b f h2.
          let (_, no_clash, same_a) = perform_transaction (header r d) db a e in
          let (_, _, same_b) = perform_entries (debit_of r d) (credit_of r d) a b f in
          (
            no_clash,
            sym (ok_injective h2)
                ∙ same_b
                ∙ ap
                    (λ (x : Database). record x {
                      ledger_entries = x.ledger_entries ++ debit_of r d ∷ credit_of r d ∷ [];
                    })
                    same_a,
          )

  -- The writes go in only where the key and the id of the header are not in use.
  pub perform_all-transfer :
      (r : Transfer) (d : Draw) (source : Account) (db db' : Database)
      → perform_all (lock_of r source ++ record_of r d) db ≡ ok db'
      → (any (clash_transaction (header r d)) db.transactions ≡ false)
        × (db' ≡ transferred r d source db)
  unfolding perform_all
  perform_all-transfer r d source db db' h = elim (Bool-cases (is_user source.account_type)) [
    | inl u ↦ rw u (
        on_ok (perform (increment_counter r.source_account_id) db) _ (rw u at h) λ a e h1.
          let (no_clash, same) = perform_all-record r d a db' h1 in
          let same_a = perform_counter r.source_account_id db a e in
          (
            subst (λ (x : Database). any (clash_transaction (header r d)) x.transactions ≡ false)
                same_a no_clash,
            same
                ∙ ap
                    (λ (x : Database). record x {
                      transactions = x.transactions ++ header r d ∷ [];
                      ledger_entries = x.ledger_entries ++ debit_of r d ∷ credit_of r d ∷ [];
                    })
                    same_a,
          ))
    | inr n ↦ rw n (perform_all-record r d db db' (rw n at h))
  ]

-- What a transfer adds to the balance of an account.
abbrev pub moved : Transfer → ObjectId → ℤ
moved r i =
    (if r.source_account_id == i then neg r.amount_minor else pos 0)
    +ℤ (if r.destination_account_id == i then r.amount_minor else pos 0)

pub balance_at-transferred :
    (r : Transfer) (d : Draw) (source : Account) (db : Database) (i : ObjectId)
    → balance_at i (transferred r d source db).ledger_entries
      ≡ balance_at i db.ledger_entries +ℤ moved r i
balance_at-transferred r d source db i =
    balance_at-append i db.ledger_entries (debit_of r d ∷ credit_of r d ∷ [])
    ∙ ap (λ (x : ℤ). balance_at i db.ledger_entries +ℤ x)
        (balance_at-pair i (debit_of r d) (credit_of r d))

module _ ⦃m : Mongo⦄ where
  pub account_by_id-transferred :
      (r : Transfer) (d : Draw) (source : Account) (db : Database) (j : ObjectId)
      → account_by_id j (transferred r d source db) ≡ (
          if is_user source.account_type && r.source_account_id == j
          then bump (account_by_id j db)
          else account_by_id j db)
  account_by_id-transferred r d source db j = elim (Bool-cases (is_user source.account_type)) [
    | inl u ↦ rw u (
        account_by_id-first _ _
        ∙ sym (
            account_by_id-first j (record db {
              accounts = update_first (has_id r.source_account_id) increment db.accounts;
            }))
        ∙ account_by_id_counter r.source_account_id j db)
    | inr n ↦ rw n (account_by_id-first _ _ ∙ sym (account_by_id-first _ _))
  ]
