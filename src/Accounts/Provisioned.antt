-- ===== src/Accounts/Provisioned.antt =====
-- After a start every supported currency has its SYSTEM account.
use ledgerlock.Database.Laws.{perform_account}
use ledgerlock.Database.{insert_account, perform, Database}
use ledgerlock.Mongo.{Mongo}
use ledgerlock.Models.{AccountType, is_user, ObjectId, is_currency_code, Account}
use ledgerlock.Errors.{ok_injective, on_ok, ok}
use ledgerlock.Accounts.{
  system_account_label, account_document, ensure_system_accounts, AccountDraw, is_system_for,
  ensure_system_account, get_system_account,
}
use ledgerlock.Accounts.Laws.{adopted, account_document_ok}
use ledgerlock.Base.{
  same_text_refl, ap, map, All-append, not, subst, &&_parts, eq_of_same_text, ◌∙◌, Option-cases,
  ◌||◌, ◌++◌, sym, Bool-cases, ◌≡◌, Bool, All, is_some, List, first, inr, inl, arith, refl, false,
  true, some, none, ◌∷◌, [], Text,
}

abbrev pub AllCodes : Database → Type 0
AllCodes db = All (λ (a : Account). is_currency_code a.currency ≡ true) db.accounts

code_of_first :
    (currency : Text) (l : List Account) (a : Account)
    → All (λ (b : Account). is_currency_code b.currency ≡ true) l
    → first (is_system_for currency) l ≡ some a
    → is_currency_code currency ≡ true
unfolding first
code_of_first currency [] a codes h = absurd (cc)
code_of_first currency (b ∷ l) a codes h = elim (Bool-cases (is_system_for currency b)) [
  | inl y ↦
      let same =
        eq_of_same_text currency b.currency (&&_parts (not (is_user b.account_type)) _ y).1 in
      subst (λ x. is_currency_code x ≡ true) (sym same) codes.0
  | inr n ↦ code_of_first currency l a codes.1 (rw n at h)
]

is_some-first-append :
    (p : Account → Bool) (l : List Account) (n : Account)
    → is_some (first p (l ++ n ∷ [])) ≡ (is_some (first p l) || p n)
unfolding first
is_some-first-append p [] n = ground arith
is_some-first-append p (b ∷ l) n = ground (arith, is_some-first-append p l n)

or_true : (a : Bool) → (a || true) ≡ true
or_true true = refl
or_true false = refl

or_left : (a b : Bool) → a ≡ true → (a || b) ≡ true
or_left true b h = refl
or_left false b h = absurd (cc)

module _ ⦃m : Mongo⦄ where
  -- What another worker of the program does leaves the SYSTEM accounts that there are, and opens
  -- accounts in well-formed currencies only.
  pub record IsCooperative (others : Database → Database) : Type 0 where
    pub keeps :
        (c : Text) (db : Database)
        → is_some (get_system_account c db) ≡ true
        → is_some (get_system_account c (others db)) ≡ true
    pub codes : (db : Database) → AllCodes db → AllCodes (others db)

  -- The currency has its account, those of the others stay, and the currency is well formed.
  abbrev pub Provisioned : Text → Database → Database → Type 0
  Provisioned currency db db' =
      (is_some (get_system_account currency db') ≡ true)
      × ((c : Text)
          → is_some (get_system_account c db) ≡ true
          → is_some (get_system_account c db') ≡ true)
      × (AllCodes db → AllCodes db' × (is_currency_code currency ≡ true))

  found_code :
      (currency : Text) (db : Database) (a : Account)
      → get_system_account currency db ≡ some a
      → AllCodes db
      → is_currency_code currency ≡ true
  unfolding get_system_account
  found_code currency db a h codes =
      code_of_first currency db.accounts a codes
        (sym (m.find_one_first (is_system_for currency) db.accounts) ∙ h)

  existing_Provisioned :
      (currency : Text) (db : Database) (a : Account)
      → get_system_account currency db ≡ some a
      → Provisioned currency db db
  existing_Provisioned currency db a h =
      (rw h, λ c k. k, λ codes. (codes, found_code currency db a h codes))

  inserted_Provisioned :
      (currency : Text) (n : Account) (db db' : Database)
      → is_system_for currency n ≡ true
      → is_currency_code n.currency ≡ true
      → is_currency_code currency ≡ true
      → perform (insert_account n) db ≡ ok db'
      → Provisioned currency db db'
  unfolding get_system_account
  inserted_Provisioned currency n db db' passes code wanted h =
      let (_, written) = perform_account n db db' h in
      subst (Provisioned currency db) (sym written) (
        rw
            (
              m.find_one_first (is_system_for currency) (db.accounts ++ n ∷ []),
              is_some-first-append (is_system_for currency) db.accounts n,
              passes,
            )
            (or_true (is_some (first (is_system_for currency) db.accounts))),
        λ c k.
            rw
              (
                m.find_one_first (is_system_for c) (db.accounts ++ n ∷ []),
                is_some-first-append (is_system_for c) db.accounts n,
              )
              (or_left (is_some (first (is_system_for c) db.accounts)) _
                (rw (m.find_one_first (is_system_for c) db.accounts) at k)),
        λ codes. (All-append _ db.accounts (n ∷ []) codes (code, tt), wanted),
      )

  ensure_system_account-Provisioned :
      (currency : Text) (d : AccountDraw) (others : Database → Database) (db : Database)
      (i : ObjectId) (db' : Database)
      → IsCooperative others
      → ensure_system_account currency d others db ≡ ok (i, db')
      → Provisioned currency db db'
  unfolding ensure_system_account
  ensure_system_account-Provisioned currency d others db i db' kind h =
      elim (Option-cases (get_system_account currency db)) [
        | inl missing ↦
            on_ok
              (account_document none currency (system_account_label currency) AccountType.system d)
              _ (rw (missing, ensure_system_account) at h)
              λ n en h1.
                let (wanted, is_n) =
                  account_document_ok none currency (system_account_label currency)
                    AccountType.system d n en in
                from_others
                  (elim (adopted currency d.account_id i (others db) db'
                    (perform (insert_account n) (others db)) h1) [
                      | inl (w, found, same) ↦
                          subst (Provisioned currency (others db)) (sym same)
                            (existing_Provisioned currency (others db) w found)
                      | inr done ↦
                          inserted_Provisioned currency n (others db) db'
                            (rw is_n (same_text_refl currency)) (rw is_n wanted) wanted done
                    ])
        | inr (a, found) ↦
            let same : ok (a.id, db) ≡ ok (i, db') = rw (found, ensure_system_account) at h in
            subst (Provisioned currency db)
              (ap (λ (x : ObjectId × Database). x.1) (ok_injective same))
              (existing_Provisioned currency db a found)
      ]
    where
      from_others : Provisioned currency (others db) db' → Provisioned currency db db'
      from_others (has, stay, good) =
          (has, λ c k. stay c (kind.keeps c db k), λ codes. good (kind.codes db codes))

  -- Every currency of the list, one after the other.
  abbrev pub AllProvisioned : List Text → Database → Database → Type 0
  AllProvisioned currencies db db' =
      All (λ c. is_some (get_system_account c db') ≡ true) currencies
      × ((c : Text)
          → is_some (get_system_account c db) ≡ true
          → is_some (get_system_account c db') ≡ true)
      × (AllCodes db → All (λ c. is_currency_code c ≡ true) currencies)

  pub ensure_system_accounts-Provisioned :
      (drawn : Text → AccountDraw) (others : Text → Database → Database)
      (kind : (c : Text) → IsCooperative (others c)) (currencies : List Text) (db : Database)
      (ids : List (Text × ObjectId)) (db' : Database)
      → ensure_system_accounts (map (λ c. (c, drawn c, others c)) currencies) db ≡ ok (ids, db')
      → AllProvisioned currencies db db'
  unfolding ensure_system_accounts
  ensure_system_accounts-Provisioned drawn others kind [] db ids db' h =
      let same = ap (λ (x : List (Text × ObjectId) × Database). x.1) (ok_injective h) in
      (
        tt,
        λ c k. subst (λ (x : Database). is_some (get_system_account c x) ≡ true) same k,
        λ codes. tt,
      )
  ensure_system_accounts-Provisioned drawn others kind (c ∷ currencies) db ids db' h =
      on_ok (ensure_system_account c (drawn c) (others c) db) _ h λ one e1 h1.
        on_ok (ensure_system_accounts (map (λ x. (x, drawn x, others x)) currencies) one.1) _ h1
          λ more e2 h2.
            let same = ap (λ (x : List (Text × ObjectId) × Database). x.1) (ok_injective h2) in
            let (has, stay, good) =
              ensure_system_account-Provisioned c (drawn c) (others c) db one.0 one.1 (kind c) e1 in
            let (all_have, all_stay, all_good) =
              ensure_system_accounts-Provisioned drawn others kind currencies one.1 more.0 more.1
                e2 in
            subst (AllProvisioned (c ∷ currencies) db) same (
              (all_stay c has, all_have),
              λ x k. all_stay x (stay x k),
              λ codes. ((good codes).1, all_good (good codes).0),
            )
