-- ===== src/Database/Laws.antt =====
-- What the writes of app/core/db.py's collections do, by the store's laws; lookups after a write.
use ledgerlock.Base.{
  first-append, ◌≡◌, sym, ◌∙◌, ap, subst, any-append_left, Bool, true, false, Option, none, some,
  List, [], ◌∷◌, ◌++◌, ◌==◌, first, any, update_first, if◌then◌else◌, arith,
}
use ledgerlock.Errors.{Result, ok, err, >>=-eq-ok, ok_injective}
use ledgerlock.Models.{ObjectId, Account, Transaction, LedgerEntry}
use mathlib.Core.List.{append_assoc}
use ledgerlock.Mongo.{Mongo, insert_checked}
use ledgerlock.Database.{
  Database, increment_counter, insert_transaction, insert_entries, insert_account, increment,
  as_bulk, perform, insert_many, account_by_id, clash_transaction, clash_entry, clash_account,
  ledger_entry_validator, transaction_validator,
}

-- A document went into a collection.
pub record Inserted {A : Type 0} (valid : A → Bool) (clash : A → A → Bool) (a : A) (l l' : List A)
    : Type 0 where
  pub is_valid : valid a ≡ true
  pub no_clash : any (clash a) l ≡ false
  pub appended : l' ≡ l ++ a ∷ []

insert_checked_inv :
    {A : Type 0} (valid : A → Bool) (clash : A → A → Bool) (a : A) (l l' : List A)
    → insert_checked valid clash a l ≡ ok l'
    → Inserted valid clash a l l'
unfolding insert_checked
insert_checked_inv valid clash a l l' h = ground arith

abbrev pub has_id : ObjectId → Account → Bool
has_id i a = a.id == i

abbrev pub bump : Option Account → Option Account
bump none = none
bump (some a) = some (increment a)

first-increment :
    (i j : ObjectId) (l : List Account)
    → first (has_id j) (update_first (has_id i) increment l)
      ≡ (if i == j then bump (first (has_id j) l) else first (has_id j) l)
unfolding first update_first
first-increment i j [] = ground arith
first-increment i j (a ∷ l) = ground (arith, first-increment i j l)

module _ ⦃m : Mongo⦄ where
  pub insert_one_inv :
      {A : Type 0} (valid : A → Bool) (clash : A → A → Bool) (a : A) (l l' : List A)
      → m.insert_one valid clash a l ≡ ok l'
      → Inserted valid clash a l l'
  insert_one_inv valid clash a l l' h =
      insert_checked_inv valid clash a l l' (sym (m.insert_one_checked valid clash a l) ∙ h)

  pub account_by_id-first :
      (i : ObjectId) (db : Database) → account_by_id i db ≡ first (has_id i) db.accounts
  unfolding account_by_id
  account_by_id-first i db = m.find_one_first _ _

  pub perform_counter :
      (i : ObjectId) (db db' : Database)
      → perform (increment_counter i) db ≡ ok db'
      → db' ≡ record db { accounts = update_first (has_id i) increment db.accounts }
  unfolding perform
  perform_counter i db db' h = ground (arith, m.update_one_first (has_id i) increment db.accounts)

  pub perform_transaction :
      (t : Transaction) (db db' : Database)
      → perform (insert_transaction t) db ≡ ok db'
      → (transaction_validator t ≡ true)
        × (any (clash_transaction t) db.transactions ≡ false)
        × (db' ≡ record db { transactions = db.transactions ++ t ∷ [] })
  unfolding perform
  perform_transaction t db db' h =
      let (l, e, q) = >>=-eq-ok _ _ h in
      let i = insert_one_inv _ _ t db.transactions l e in
      (
        i.is_valid,
        i.no_clash,
        sym (ok_injective q)
            ∙ ap (λ (x : List Transaction). record db { transactions = x }) i.appended,
      )

  pub perform_account :
      (a : Account) (db db' : Database)
      → perform (insert_account a) db ≡ ok db'
      → (any (clash_account a) db.accounts ≡ false)
        × (db' ≡ record db { accounts = db.accounts ++ a ∷ [] })
  unfolding perform
  perform_account a db db' h =
      let (l, e, q) = >>=-eq-ok _ _ h in
      let i = insert_one_inv _ _ a db.accounts l e in
      (
        i.no_clash,
        sym (ok_injective q) ∙ ap (λ (x : List Account). record db { accounts = x }) i.appended,
      )

  as_bulk_ok : (r : Result (List LedgerEntry)) (l : List LedgerEntry) → as_bulk r ≡ ok l → r ≡ ok l
  as_bulk_ok (ok x) l h = h
  as_bulk_ok (err e) l h = cc

  insert_many_one :
      (e : LedgerEntry) (es l l' : List LedgerEntry)
      → insert_many (e ∷ es) l ≡ ok l'
      → (ledger_entry_validator e ≡ true)
        × (any (clash_entry e) l ≡ false)
        × (insert_many es (l ++ e ∷ []) ≡ ok l')
  unfolding insert_many
  insert_many_one e es l l' h =
      let (x, p, q) = >>=-eq-ok _ _ h in
      let i = insert_one_inv _ _ e l x (as_bulk_ok _ x p) in
      (
        i.is_valid,
        i.no_clash,
        subst (λ (y : List LedgerEntry). insert_many es y ≡ ok l') i.appended q,
      )

  -- The two entries of a transfer went in.
  pub perform_entries :
      (d c : LedgerEntry) (db db' : Database)
      → perform (insert_entries (d ∷ c ∷ [])) db ≡ ok db'
      → (any (clash_entry d) db.ledger_entries ≡ false)
        × (any (clash_entry c) db.ledger_entries ≡ false)
        × (db' ≡ record db { ledger_entries = db.ledger_entries ++ d ∷ c ∷ [] })
  unfolding perform insert_many any
  perform_entries d c db db' h =
      let (l, e, q) = >>=-eq-ok _ _ h in
      let (vd, nd, rest) = insert_many_one d (c ∷ []) db.ledger_entries l e in
      let (vc, nc, last) = insert_many_one c [] (db.ledger_entries ++ d ∷ []) l rest in
      (
        nd,
        any-append_left (clash_entry c) db.ledger_entries (d ∷ []) nc,
        sym (ok_injective q)
            ∙ ap (λ (x : List LedgerEntry). record db { ledger_entries = x })
                (sym (ok_injective last) ∙ append_assoc db.ledger_entries (d ∷ []) (c ∷ [])),
      )

  -- A lookup by id after the serialisation write.
  pub account_by_id_counter :
      (i j : ObjectId) (db : Database)
      → account_by_id j (record db { accounts = update_first (has_id i) increment db.accounts })
        ≡ (if i == j then bump (account_by_id j db) else account_by_id j db)
  account_by_id_counter i j db =
      rw (account_by_id-first, account_by_id-first) (first-increment i j db.accounts)

  -- A new account hides none that was there.
  pub account_by_id_insert :
      (i : ObjectId) (db : Database) (n : Account) {a : Account}
      → account_by_id i db ≡ some a
      → account_by_id i (record db { accounts = db.accounts ++ n ∷ [] }) ≡ some a
  account_by_id_insert i db n e =
      account_by_id-first _ _
      ∙ first-append (has_id i) db.accounts (n ∷ []) (sym (account_by_id-first i db) ∙ e)
