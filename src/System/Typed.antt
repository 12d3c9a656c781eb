-- ===== src/System/Typed.antt =====
-- Fields that the responses depend on: the owners and currencies of the accounts, the currencies of the
-- transactions, and the amounts and signs of the entries, in every version that a reachable state has or had.
use ledgerlock.System.Safety.{older}
use ledgerlock.Accounts.Laws.{account_document_ok, adopted, create_account_ok}
use ledgerlock.Accounts.{
  create_account, ensure_system_account, account_document, AccountDraw, get_system_account,
  system_account_label,
}
use ledgerlock.Database.Laws.{perform_account, has_id}
use ledgerlock.Database.{Database, perform, insert_account, increment, perform_all, Write}
use ledgerlock.Ledger.Effects.{transferred, perform_all-transfer}
use ledgerlock.Ledger.Applied.{apply_transfer_ok}
use ledgerlock.Ledger.Guards.{debit_of, credit_of}
use ledgerlock.Ledger.{header, Transfer, Draw, open_session}
use ledgerlock.System.{State, Step, Reach, Elem}
use ledgerlock.Mongo.{Mongo}
use ledgerlock.Models.{
  is_credit, is_user, Account, AccountType, Transaction, LedgerEntry, ObjectId, is_currency_code,
  is_transaction_document,
}
use ledgerlock.Errors.{ok, on_ok, ok_injective}
use ledgerlock.Base.{
  neg, if◌then◌else◌, refl, ◌⊎◌, All, All-append, update_first, List, Text, pos, ◌≤ℤ◌, ◌≡◌, ◌++◌,
  ◌∷◌, [], Bool-cases, Option-cases, inl, inr, sym, ap, ◌∙◌, subst, true, some, none, arith,
}

pub code_of_document :
    (t : Transaction) → is_transaction_document t ≡ true → is_currency_code t.currency ≡ true
unfolding is_transaction_document
code_of_document t h = ground arith

abbrev HasCode : Account → Type 0
HasCode a = is_currency_code a.currency ≡ true

-- Only a USER account has an owner.
abbrev pub HasOwner : Account → Type 0
HasOwner a = (a.owner_id ≡ none) ⊎ (is_user a.account_type ≡ true)

-- A credit counts its amount, a debit takes it away.
abbrev pub HasSign : LedgerEntry → Type 0
HasSign e =
    e.signed_amount_minor ≡ (if is_credit e.direction then e.amount_minor else neg e.amount_minor)

pub record Typed (db : Database) : Type 0 where
  pub owners : All HasOwner db.accounts
  pub accounts : All (λ (a : Account). is_currency_code a.currency ≡ true) db.accounts
  pub transactions : All (λ (t : Transaction). is_currency_code t.currency ≡ true) db.transactions
  pub entries : All (λ (e : LedgerEntry). pos 1 ≤ℤ e.amount_minor) db.ledger_entries
  pub signs : All HasSign db.ledger_entries

HasCode-locked :
    (i : ObjectId) (l : List Account)
    → All HasCode l
    → All HasCode (update_first (has_id i) increment l)
unfolding update_first
HasCode-locked i [] h = tt
HasCode-locked i (a ∷ l) h = elim (Bool-cases (has_id i a)) [
  | inl y ↦ rw y h
  | inr n ↦ rw n (h.0, HasCode-locked i l h.1)
]

HasOwner-locked :
    (i : ObjectId) (l : List Account)
    → All HasOwner l
    → All HasOwner (update_first (has_id i) increment l)
unfolding update_first
HasOwner-locked i [] h = tt
HasOwner-locked i (a ∷ l) h = elim (Bool-cases (has_id i a)) [
  | inl y ↦ rw y h
  | inr n ↦ rw n (h.0, HasOwner-locked i l h.1)
]

Typed-transferred :
    (r : Transfer) (d : Draw) (source : Account) (db : Database)
    → is_transaction_document (header r d) ≡ true
    → pos 1 ≤ℤ r.amount_minor
    → Typed db
    → Typed (transferred r d source db)
Typed-transferred r d source db well_formed positive typed = record {
  owners = elim (Bool-cases (is_user source.account_type)) [
    | inl u ↦ rw u (HasOwner-locked r.source_account_id db.accounts typed.owners)
    | inr n ↦ rw n typed.owners
  ];
  accounts = elim (Bool-cases (is_user source.account_type)) [
    | inl u ↦ rw u (HasCode-locked r.source_account_id db.accounts typed.accounts)
    | inr n ↦ rw n typed.accounts
  ];
  transactions =
      All-append _ db.transactions (header r d ∷ []) typed.transactions
        (code_of_document (header r d) well_formed, tt);
  entries =
      All-append _ db.ledger_entries (debit_of r d ∷ credit_of r d ∷ []) typed.entries
        (positive, (positive, tt));
  signs =
      All-append _ db.ledger_entries (debit_of r d ∷ credit_of r d ∷ []) typed.signs
        (refl, (refl, tt));
}

Typed-account :
    (a : Account) (db : Database)
    → HasCode a
    → HasOwner a
    → Typed db
    → Typed (record db { accounts = db.accounts ++ a ∷ [] })
Typed-account a db code owner typed = record {
  owners = All-append _ db.accounts (a ∷ []) typed.owners (owner, tt);
  accounts = All-append _ db.accounts (a ∷ []) typed.accounts (code, tt);
  transactions = typed.transactions;
  entries = typed.entries;
  signs = typed.signs;
}

module _ ⦃m : Mongo⦄ where
  -- An account that is opened has the currency that its document has checked.
  pub create_account-HasCode :
      (owner : ObjectId) (currency label : Text) (d : AccountDraw) (db : Database)
      (done : Account × Database)
      → create_account owner currency label d db ≡ ok done
      → is_currency_code done.0.currency ≡ true
  unfolding create_account
  create_account-HasCode owner currency label d db done h =
      on_ok (account_document (some owner) currency label AccountType.user d) _ h λ a made h1.
        on_ok (perform (insert_account a) db) _ h1 λ db' _ same.
          let (code, is_a) =
            account_document_ok (some owner) currency label AccountType.user d a made in
          ap (λ (x : Account × Database). is_currency_code x.0.currency) (sym (ok_injective same))
          ∙ ap (λ (x : Account). is_currency_code x.currency) is_a
          ∙ code

  ensure_system_account-Typed :
      (currency : Text) (d : AccountDraw) (db : Database) (i : ObjectId) (db' : Database)
      → ensure_system_account currency d (λ x. x) db ≡ ok (i, db')
      → Typed db
      → Typed db'
  unfolding ensure_system_account
  ensure_system_account-Typed currency d db i db' h typed =
      elim (Option-cases (get_system_account currency db)) [
        | inl missing ↦
            on_ok
              (account_document none currency (system_account_label currency) AccountType.system d)
              _ (rw (missing, ensure_system_account) at h)
              λ n made h1.
                elim (adopted currency d.account_id i db db' (perform (insert_account n) db) h1) [
                  | inl (_, _, same) ↦ subst Typed (sym same) typed
                  | inr done ↦
                      let (_, same) = perform_account n db db' done in
                      let (code, is_n) =
                        account_document_ok none currency (system_account_label currency)
                          AccountType.system d n made in
                      subst Typed (sym same) (
                        Typed-account n db
                          (ap (λ (x : Account). is_currency_code x.currency) is_n ∙ code)
                          (inl (ap (λ (x : Account). x.owner_id) is_n)) typed)
                ]
        | inr (a, found) ↦
            subst Typed
              (ap (λ (x : ObjectId × Database). x.1)
                (ok_injective (rw (found, ensure_system_account) at h)))
              typed
      ]

  Step-Typed : {s t : State} → Step s t → Typed s.current → Typed t.current
  Step-Typed {s} (Step.transfer attempts r d snapshot db out old ne run same done e) typed =
      let a = apply_transfer_ok attempts r d (open_session snapshot) out run in
      let (_, next) =
        perform_all-transfer r d a.source s.current db
          (subst (λ (ws : List Write). perform_all ws s.current ≡ ok db) a.written done) in
      subst Typed (sym (ap (λ (x : State). x.current) e ∙ next))
        (Typed-transferred r d a.source s.current a.well_formed a.positive typed)
  Step-Typed {s} (Step.open_account owner currency label d account db run e) typed =
      let (of_user, _, same) = create_account_ok owner currency label d s.current account db run in
      subst Typed (sym (ap (λ (x : State). x.current) e ∙ same)) (
        Typed-account account s.current
          (create_account-HasCode owner currency label d s.current (account, db) run)
          (inr (ap is_user of_user)) typed)
  Step-Typed {s} (Step.provision currency d i db run e) typed =
      subst Typed (sym (ap (λ (x : State). x.current) e))
        (ensure_system_account-Typed currency d s.current i db run typed)
  Step-Typed {s} (Step.authenticate us rs e) typed =
      subst Typed (sym (ap (λ (x : State). x.current) e)) (record {
        owners = typed.owners;
        accounts = typed.accounts;
        transactions = typed.transactions;
        entries = typed.entries;
        signs = typed.signs;
      })

  pub Reach-Typed : {s : State} → Reach s → Typed s.current
  Reach-Typed Reach.start = record {
    owners = tt;
    accounts = tt;
    transactions = tt;
    entries = tt;
    signs = tt;
  }
  Reach-Typed (Reach.later before step) = Step-Typed step (Reach-Typed before)

  -- An earlier version was once the current one.
  pub Reach-version :
      {s : State} (v : Database)
      → Reach s
      → Elem v (s.current ∷ s.history)
      → (u : State) × Reach u × (u.current ≡ v)
  Reach-version {s} v Reach.start old = elim old [
    | inl same ↦ (s, Reach.start, sym same)
    | inr no_more ↦ absurd no_more
  ]
  Reach-version v (Reach.later {s} {t} before step) old =
      elim (subst (λ (vs : List Database). Elem v (t.current ∷ vs)) (older step) old) [
        | inl same ↦ (t, Reach.later before step, sym same)
        | inr earlier ↦ Reach-version v before earlier
      ]
