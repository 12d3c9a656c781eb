-- ===== src/Reconciliation/Overdrawn.antt =====
-- The report's list of overdrawn USER accounts, for a ledger in which none is below zero.
use ledgerlock.Database.Laws.{account_by_id-first, has_id}
use ledgerlock.System.Sound.{Sound}
use ledgerlock.Database.{Database}
use ledgerlock.Balance.Laws.{balance_at}
use ledgerlock.Mongo.{Mongo}
use ledgerlock.Reconciliation.{
  signed_amount, is_negative, find_negative_user_accounts, unwind, BalanceRow,
}
use ledgerlock.Models.{LedgerEntry, ObjectId, is_user, Account}
use ledgerlock.Base.{
  sym, subst, ◌≤ℤ◌, ltb_ℤ, first, ℤ, keep_single, keep-append, ◌∙◌, sum_by, ap, Bool-cases, ◌++◌,
  map, Bool, ◌==◌, ◌≡◌, All, List, keep, ℕ, pos, inr, inl, arith, refl, false, true, some, ◌∷◌, [],
}
use ledgerlock.Mongo.Laws.{All-group}

-- The tests of the pipeline stages, the other way round.
pub ==_swap : (a b : ℕ) → (a == b) ≡ (b == a)
==_swap a b = ground arith

pub keep_same {ℓ} :
    {A : Type ℓ} (p q : A → Bool) → ((x : A) → p x ≡ q x) → (l : List A) → keep p l ≡ keep q l
unfolding keep
keep_same p q f [] = refl
keep_same p q f (x ∷ l) = ground (arith, f x, keep_same p q f l)

pub All-every {ℓ κ} : {A : Type ℓ} (P : A → Type κ) → ((x : A) → P x) → (l : List A) → All P l
All-every P f [] = tt
All-every P f (x ∷ l) = (f x, All-every P f l)

negative_nonneg : (x : ℤ) → ltb_ℤ x (pos 0) ≡ true → pos 0 ≤ℤ x → ⊥
negative_nonneg x a b = ground arith

abbrev pub joined : BalanceRow → Account → Bool
joined row a = row.account_id == a.id

abbrev pub on_user : BalanceRow × Account → Bool
on_user row = is_user row.1.account_type

-- No USER account is joined to a negative row.
abbrev pub Covered : List Account → BalanceRow → Type 0
Covered accounts row =
    is_negative row ≡ true
    → All (λ (a : Account). is_user a.account_type ≡ false) (keep (joined row) accounts)

keep-map_row :
    (row : BalanceRow) (js : List Account)
    → All (λ (a : Account). is_user a.account_type ≡ false) js
    → keep on_user (map (λ a. (row, a)) js) ≡ []
unfolding keep
keep-map_row row [] h = refl
keep-map_row row (a ∷ js) h = rw (h.0) (keep-map_row row js h.1)

pub unwind_cons :
    {A B : Type 0} (a : A) (bs : List B) (l : List (A × List B))
    → unwind ((a, bs) ∷ l) ≡ map (λ b. (a, b)) bs ++ unwind l
unfolding unwind
unwind_cons a [] l = refl
unwind_cons a (b ∷ bs) l = refl

no_user_rows :
    (accounts : List Account) (rows : List BalanceRow)
    → All (Covered accounts) rows
    → keep on_user (unwind (map (λ row. (row, keep (joined row) accounts)) (keep is_negative rows)))
      ≡ []
unfolding keep unwind
no_user_rows accounts [] h = refl
no_user_rows accounts (row ∷ rows) h = elim (Bool-cases (is_negative row)) [
  | inl y ↦ rw y (
      ap (keep on_user) (unwind_cons row (keep (joined row) accounts) _)
      ∙ keep-append on_user (map (λ a. (row, a)) (keep (joined row) accounts)) _
      ∙ rw (keep-map_row row (keep (joined row) accounts) (h.0 y)) (no_user_rows accounts rows h.1))
  | inr n ↦ rw n (no_user_rows accounts rows h.1)
]

module _ ⦃m : Mongo⦄ where
  not_user :
      (db : Database)
      → Sound db
      → (k : ObjectId) (a : Account) → first (has_id k) db.accounts ≡ some a
      → ltb_ℤ
          (sum_by signed_amount (keep (λ (e : LedgerEntry). k == e.account_id) db.ledger_entries))
          (pos 0)
        ≡ true
      → is_user a.account_type ≡ false
  unfolding balance_at
  not_user db sound k a found negative = elim (Bool-cases (is_user a.account_type)) [
    | inl u ↦ absurd (
        negative_nonneg _ negative (
          subst (λ (es : List LedgerEntry). pos 0 ≤ℤ sum_by signed_amount es)
            (sym (
              keep_same (λ (e : LedgerEntry). k == e.account_id) (λ e. e.account_id == k)
                (λ e. ==_swap k e.account_id) db.ledger_entries))
            (sound.nonneg k a (account_by_id-first k db ∙ found) u)))
    | inr n ↦ n
  ]

  covered :
      (db : Database)
      → Sound db
      → (k : ObjectId)
      → Covered db.accounts (record {
        account_id = k;
        balance =
            sum_by signed_amount (keep (λ (e : LedgerEntry). k == e.account_id) db.ledger_entries);
      })
  unfolding balance_at
  covered db sound k negative =
      rw (keep_same (λ (a : Account). k == a.id) (has_id k) (λ a. ==_swap k a.id) db.accounts)
        (elim (keep_single (has_id k) db.accounts (sound.unique k)) [
          | inl (_, none_kept) ↦ rw none_kept tt
          | inr (a, found, one) ↦ rw one (not_user db sound k a found negative, tt)
        ])

  pub find_negative_user_accounts-Sound :
      (db : Database) → Sound db → find_negative_user_accounts db.accounts db.ledger_entries ≡ []
  unfolding find_negative_user_accounts
  find_negative_user_accounts-Sound db sound =
      rw (m.find_keep, m.lookup_rows, m.find_keep)
        (ap (map (λ (row : BalanceRow × Account). row.0.account_id)) (
          no_user_rows db.accounts _ (
            All-group (Covered db.accounts) (λ a b. a == b) (λ (e : LedgerEntry). e.account_id) _
              db.ledger_entries
              (All-every _ (λ e. covered db sound e.account_id) db.ledger_entries))))
