-- ===== src/Reconciliation/Uncovered.antt =====
-- Accounts that no negative row of the pipeline is joined to.
use ledgerlock.Database.Laws.{has_id}
use ledgerlock.Balance.{on_account}
use ledgerlock.Reconciliation.Overdrawn.{unwind_cons, ==_swap, keep_same, Covered, joined, on_user}
use ledgerlock.Balance.Laws.{balance_at}
use ledgerlock.Models.{is_user, Account, LedgerEntry, ObjectId}
use ledgerlock.Reconciliation.{is_negative, signed_amount, BalanceRow, unwind}
use ledgerlock.Reconciliation.Detects.{nothing_kept}
use ledgerlock.Base.{
  ==_refl, All-keep, All-first, first_passes, All-mapped, ltb_ℤ_false, ◌≤ℤ◌, keep-append, eq_of_==,
  Bool-cases, subst, is_empty, first-none-any, keep_of_any, Option-cases, sym, map, sum_by, ◌∙◌, ap,
  first, ◌==◌, ltb_ℤ, length, All, ◌++◌, ◌≡◌, ℤ, Bool, keep, List, pos, inr, inl, refl, false, true,
  some, ◌∷◌, [],
}

append_nil_parts : {A : Type 0} (l r : List A) → l ++ r ≡ [] → (l ≡ []) × (r ≡ [])
append_nil_parts [] r h = (refl, h)
append_nil_parts (x ∷ l) r h = absurd (cc)

kept_nothing : {A : Type 0} (p : A → Bool) (l : List A) → keep p l ≡ [] → All (λ x. p x ≡ false) l
kept_nothing p l h = nothing_kept p l (ap length h ∙ refl)

-- No USER account is joined to a negative row, if the pipeline finds none.
pub rows-Covered :
    (accounts : List Account) (rows : List BalanceRow)
    → keep on_user (unwind (map (λ row. (row, keep (joined row) accounts)) (keep is_negative rows)))
      ≡ []
    → All (Covered accounts) rows
unfolding keep unwind
rows-Covered accounts [] h = tt
rows-Covered accounts (row ∷ rows) h = elim (Bool-cases (is_negative row)) [
  | inl y ↦
      let js = keep (joined row) accounts in
      let rest = unwind (map (λ r. (r, keep (joined r) accounts)) (keep is_negative rows)) in
      let (here, there) =
        append_nil_parts (keep on_user (map (λ a. (row, a)) js)) (keep on_user rest) (
          sym (keep-append on_user (map (λ a. (row, a)) js) rest)
          ∙ ap (keep on_user) (sym (unwind_cons row js _))
          ∙ (rw y at h)) in
      (
        λ _.
            All-mapped (λ (r : BalanceRow × Account). on_user r ≡ false) (λ a. (row, a)) js
              (kept_nothing on_user (map (λ a. (row, a)) js) here),
        rows-Covered accounts rows there,
      )
  | inr n ↦ (λ y. absurd (cc (sym n ∙ y)), rows-Covered accounts rows (rw n at h))
]

pub empty_of_map : {A B : Type 0} (f : A → B) (l : List A) → is_empty (map f l) ≡ true → l ≡ []
empty_of_map f [] h = refl
empty_of_map f (x ∷ l) h = absurd (cc)

-- A balance below zero needs an entry.
some_entry :
    (i : ObjectId) (es : List LedgerEntry)
    → ltb_ℤ (balance_at i es) (pos 0) ≡ true
    → (e : LedgerEntry) × (first (on_account i) es ≡ some e)
unfolding balance_at sum_by
some_entry i es h = elim (Option-cases (first (on_account i) es)) [
  | inl missing ↦
      let nothing = keep_of_any (on_account i) es (first-none-any (on_account i) es missing) in
      absurd (
        cc (
          subst
            (λ (l : List LedgerEntry).
              ltb_ℤ (sum_by (λ (e : LedgerEntry). e.signed_amount_minor) l) (pos 0) ≡ true)
            nothing h))
  | inr found ↦ found
]

-- The row of an account, as the pipeline computes it.
abbrev pub row_of : List LedgerEntry → ObjectId → BalanceRow
row_of es k = record {
  account_id = k;
  balance = sum_by signed_amount (keep (λ (e : LedgerEntry). k == e.account_id) es);
}

row_of-balance_at : (es : List LedgerEntry) (i : ObjectId) → (row_of es i).balance ≡ balance_at i es
unfolding balance_at
row_of-balance_at es i = ap (sum_by signed_amount) (
    keep_same (λ (e : LedgerEntry). i == e.account_id) (on_account i) (λ e. ==_swap i e.account_id)
      es)

-- No account with the id of a negative sum is a USER account.
negative_not_user :
    (l : List Account) (es : List LedgerEntry) (i : ObjectId)
    → All (λ e. Covered l (row_of es e.account_id)) es
    → ltb_ℤ (balance_at i es) (pos 0) ≡ true
    → All (λ (x : Account). is_user x.account_type ≡ false) (keep (has_id i) l)
negative_not_user l es i covered negative =
    let (e, first_e) = some_entry i es negative in
    let same : e.account_id ≡ i =
      eq_of_== e.account_id i (first_passes (on_account i) es first_e) in
    let at_e =
      All-first (λ (x : LedgerEntry). Covered l (row_of es x.account_id)) (on_account i) es first_e
        (All-keep _ (on_account i) es covered) in
    let at_i = subst (λ (k : ObjectId). Covered l (row_of es k)) same at_e in
    subst (All (λ (x : Account). is_user x.account_type ≡ false))
      (keep_same (λ (x : Account). i == x.id) (has_id i) (λ x. ==_swap i x.id) l)
      (at_i (ap (λ (x : ℤ). ltb_ℤ x (pos 0)) (row_of-balance_at es i) ∙ negative))

kept_user :
    (i : ObjectId) (a : Account) (l : List Account)
    → All (λ (x : Account). is_user x.account_type ≡ false) (keep (has_id i) (a ∷ l))
    → All (λ (x : Account). is_user x.account_type ≡ false) (keep (has_id i) l)
unfolding keep
kept_user i a l h = elim (Bool-cases (has_id i a)) [ inl y ↦ (rw y at h).1 | inr n ↦ rw n at h ]

kept_first :
    (a : Account) (l : List Account)
    → All (λ (x : Account). is_user x.account_type ≡ false) (keep (has_id a.id) (a ∷ l))
    → is_user a.account_type ≡ false
unfolding keep
kept_first a l h = (rw (==_refl a.id) at h).0

users_above :
    (es : List LedgerEntry) (l : List Account)
    → ((i : ObjectId)
        → ltb_ℤ (balance_at i es) (pos 0) ≡ true
        → All (λ (x : Account). is_user x.account_type ≡ false) (keep (has_id i) l))
    → All
        (λ (a : Account). pos 0 ≤ℤ balance_at a.id es)
        (keep (λ (a : Account). is_user a.account_type) l)
unfolding keep
users_above es [] h = tt
users_above es (a ∷ l) h =
    let rest = users_above es l (λ i negative. kept_user i a l (h i negative)) in
    elim (Bool-cases (is_user a.account_type)) [
      | inr n ↦ rw n rest
      | inl of_user ↦ rw of_user (
        (elim (Bool-cases (ltb_ℤ (balance_at a.id es) (pos 0))) [
          | inr fine ↦ ltb_ℤ_false (balance_at a.id es) (pos 0) fine
          | inl negative ↦ absurd (cc (sym of_user ∙ kept_first a l (h a.id negative)))
        ]),
        rest,
      )
    ]

-- The USER accounts whose rows are not negative, or have none, are at zero or above.
pub uncovered :
    (l : List Account) (es : List LedgerEntry)
    → All (λ e. Covered l (row_of es e.account_id)) es
    → All
        (λ (a : Account). pos 0 ≤ℤ balance_at a.id es)
        (keep (λ (a : Account). is_user a.account_type) l)
uncovered l es covered = users_above es l (λ i negative. negative_not_user l es i covered negative)
