-- ===== src/Accounts/Laws.antt =====
-- What opening and provisioning an account write.
use ledgerlock.Database.Laws.{perform_account}
use ledgerlock.Database.{insert_account, perform, clash_account, Database}
use ledgerlock.Mongo.{Mongo}
use ledgerlock.Accounts.{
  adopt, system_account_label, get_system_account, inserted_or_adopted, AccountDraw,
  ensure_system_account, create_account, account_document,
}
use ledgerlock.Models.{AccountStatus, is_currency_code, Account, AccountType, ObjectId}
use ledgerlock.Errors.{Exc, ok_injective, on_ok, Result, err, ok}
use ledgerlock.Base.{
  Option-cases, subst, ◌∙◌, ap, sym, Bool-cases, ◌++◌, ◌⊎◌, any, ◌≡◌, Text, Option, inr, inl, false,
  true, some, none, ◌∷◌, [],
}

pub account_document_ok :
    (owner : Option ObjectId) (currency label : Text) (ty : AccountType) (d : AccountDraw)
    (a : Account)
    → account_document owner currency label ty d ≡ ok a
    → (is_currency_code currency ≡ true)
      × (a ≡ record {
        id = d.account_id;
        owner_id = owner;
        currency = currency;
        status = AccountStatus.active;
        account_type = ty;
        label = label;
        created_at = d.created_at;
        updated_at = d.updated_at;
        debit_serialisation_counter = 0;
      })
unfolding account_document
account_document_ok owner currency label ty d a h = elim (Bool-cases (is_currency_code currency)) [
  | inl y ↦ (y, sym (ok_injective (rw y at h)))
  | inr n ↦ absurd (cc (rw n at h))
]

module _ ⦃m : Mongo⦄ where
  pub create_account_ok :
      (owner : ObjectId) (currency label : Text) (d : AccountDraw) (db : Database) (a : Account)
      (db' : Database)
      → create_account owner currency label d db ≡ ok (a, db')
      → (a.account_type ≡ AccountType.user)
        × (any (clash_account a) db.accounts ≡ false)
        × (db' ≡ record db { accounts = db.accounts ++ a ∷ [] })
  unfolding create_account
  create_account_ok owner currency label d db a db' h =
      on_ok (account_document (some owner) currency label AccountType.user d) _ h λ b eb h1.
        on_ok (perform (insert_account b) db) _ h1 λ db1 e1 h2.
          let same_a : b ≡ a = ap (λ (x : Account × Database). x.0) (ok_injective h2) in
          let same_db : db1 ≡ db' = ap (λ (x : Account × Database). x.1) (ok_injective h2) in
          let (_, is_a) = account_document_ok (some owner) currency label AccountType.user d b eb in
          let (fresh, written) = perform_account b db db1 e1 in
          (
            ap (λ (x : Account). x.account_type) (sym same_a ∙ is_a),
            subst (λ (x : Account). any (clash_account x) db.accounts ≡ false) same_a fresh,
            sym same_db
                ∙ written
                ∙ ap (λ (x : Account). record db { accounts = db.accounts ++ x ∷ [] }) same_a,
          )

  pub adopted :
      (currency : Text) (i j : ObjectId) (db db' : Database) (r : Result Database)
      → inserted_or_adopted currency i db r ≡ ok (j, db')
      → ((w : Account) × (get_system_account currency db ≡ some w) × (db' ≡ db)) ⊎ (r ≡ ok db')
  adopted currency i j db db' (ok x) h = inr (cc)
  adopted currency i j db db' (err Exc.duplicate_key) h =
      elim (Option-cases (get_system_account currency db)) [
        | inl missing ↦ absurd (cc (rw (missing, adopt) at h))
        | inr (w, found) ↦
            let same : ok (w.id, db) ≡ ok (j, db') = rw (found, adopt) at h in
            inl (w, found, ap (λ (x : ObjectId × Database). x.1) (sym (ok_injective same)))
      ]
  adopted currency i j db db' (err (Exc.rejected x)) h = absurd (cc)
  adopted currency i j db db' (err Exc.value_error) h = absurd (cc)
  adopted currency i j db db' (err Exc.validation_error) h = absurd (cc)
  adopted currency i j db db' (err Exc.runtime_error) h = absurd (cc)
  adopted currency i j db db' (err Exc.overflow_error) h = absurd (cc)
  adopted currency i j db db' (err (Exc.connection_failure x)) h = absurd (cc)
  adopted currency i j db db' (err (Exc.operation_failure x)) h = absurd (cc)

  -- With no other worker in between, the round changes nothing or adds an account.
  pub ensure_system_account_ok :
      (currency : Text) (d : AccountDraw) (db : Database) (i : ObjectId) (db' : Database)
      → ensure_system_account currency d (λ x. x) db ≡ ok (i, db')
      → (db' ≡ db)
        ⊎ ((n : Account) × (any (clash_account n) db.accounts ≡ false)
            × (db' ≡ record db { accounts = db.accounts ++ n ∷ [] }))
  unfolding ensure_system_account
  ensure_system_account_ok currency d db i db' h =
      elim (Option-cases (get_system_account currency db)) [
        | inl missing ↦
            on_ok
              (account_document none currency (system_account_label currency) AccountType.system d)
              _ (rw (missing, ensure_system_account) at h)
              λ n en h1.
                elim (adopted currency d.account_id i db db' (perform (insert_account n) db) h1) [
                  | inl (_, _, same) ↦ inl same
                  | inr done ↦
                      let (fresh, same) = perform_account n db db' done in inr (n, fresh, same)
                ]
        | inr (a, found) ↦ inl (
            sym (
              ap (λ (x : ObjectId × Database). x.1)
                (ok_injective (rw (found, ensure_system_account) at h))))
      ]
