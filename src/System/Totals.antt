-- ===== src/System/Totals.antt =====
-- The balances of the accounts of one currency, added up: a transfer and a new account leave the sum
-- as it is.
use mathlib.Core.Path.{ap₂}
use ledgerlock.Ledger.Effects.{balance_at-transferred, moved, transferred}
use ledgerlock.System.Growth.{Grows}
use ledgerlock.Ledger.Applied.{Applied}
use ledgerlock.Ledger.{open_session, Session, LedgerWriteResult, Draw, Transfer}
use ledgerlock.System.Sound.{Sound}
use ledgerlock.Mongo.{Mongo}
use ledgerlock.Database.Laws.{account_by_id-first, has_id}
use ledgerlock.Balance.Laws.{balance_at}
use ledgerlock.Database.{increment, account_by_id, clash_account, Database}
use ledgerlock.Models.{is_user, ObjectId, Account}
use ledgerlock.Base.{
  +ℤ_zero, sum_by-append, fun_ext, keep-append, ap, sym, any_weaken, first_of_any, ◌++◌, any, neg,
  subst, some_eq, ◌∙◌, Bool-cases, ◌≤◌, int_laws, ◌+ℤ◌, length, first, if◌then◌else◌, List,
  same_text, ◌≡◌, update_first, ◌==◌, Bool, keep, ℤ, ℕ, sum_by, pos, inr, inl, arith, refl, false,
  true, some, none, ◌∷◌, [], Text,
}

-- An account of the currency.
abbrev pub holds : Text → Account → Bool
holds c a = same_text c a.currency

-- The balances of the accounts of a currency, added up.
abbrev pub total : Text → Database → ℤ
total c db =
    sum_by (λ (a : Account). balance_at a.id db.ledger_entries) (keep (holds c) db.accounts)

-- An amount at one account, and nothing at the others.
abbrev placed : ObjectId → ℤ → Account → ℤ
placed j x a = if j == a.id then x else pos 0

sum_by-add :
    (f g : Account → ℤ) (l : List Account) → sum_by (λ a. f a +ℤ g a) l ≡ sum_by f l +ℤ sum_by g l
unfolding sum_by
sum_by-add f g [] = omega int_laws
sum_by-add f g (a ∷ l) = rw (sum_by-add f g l) (omega int_laws)

sum_by-update_first :
    (p q : Account → Bool) (g : Account → ℤ) (f : Account → Account)
    → ((a : Account) → p (f a) ≡ p a)
    → ((a : Account) → g (f a) ≡ g a)
    → (l : List Account) → sum_by g (keep p (update_first q f l)) ≡ sum_by g (keep p l)
unfolding sum_by keep update_first
sum_by-update_first p q g f same value [] = refl
sum_by-update_first p q g f same value (a ∷ l) =
    ground (arith, same a, value a, sum_by-update_first p q g f same value l)

==_comm : (a b : ℕ) → (a == b) ≡ (b == a)
==_comm a b = ground arith

placed_absent :
    (j : ObjectId) (x : ℤ) (c : Text) (l : List Account)
    → length (keep (has_id j) l) ≤ 0
    → sum_by (placed j x) (keep (holds c) l) ≡ pos 0
unfolding sum_by keep
placed_absent j x c [] h = refl
placed_absent j x c (a ∷ l) h = elim (Bool-cases (a.id == j)) [
  | inl y ↦ absurd (omega (arith, rw y at h))
  | inr n ↦
      let rest = placed_absent j x c l (rw n at h) in
      elim (Bool-cases (same_text c a.currency)) [
        | inl held ↦ rw (held, ==_comm j a.id ∙ n, rest) (omega int_laws)
        | inr other ↦ rw other rest
      ]
]

placed_once :
    (j : ObjectId) (x : ℤ) (c : Text) (l : List Account) (b : Account)
    → length (keep (has_id j) l) ≤ 1
    → first (has_id j) l ≡ some b
    → sum_by (placed j x) (keep (holds c) l) ≡ (if same_text c b.currency then x else pos 0)
unfolding sum_by keep first
placed_once j x c [] b h found = absurd (cc)
placed_once j x c (a ∷ l) b h found = elim (Bool-cases (a.id == j)) [
  | inl y ↦
      let rest = placed_absent j x c l (omega (arith, rw y at h)) in
      let same : a ≡ b = some_eq (rw y at found) in
      subst
        (λ (e : Account).
          sum_by (placed j x) (keep (holds c) (a ∷ l))
          ≡ (if same_text c e.currency then x else pos 0))
        same
        (elim (Bool-cases (same_text c a.currency)) [
          | inl held ↦ rw (held, ==_comm j a.id ∙ y, rest) (omega int_laws)
          | inr other ↦ rw other rest
        ])
  | inr n ↦
      let rest = placed_once j x c l b (rw n at h) (rw n at found) in
      elim (Bool-cases (same_text c a.currency)) [
        | inl held ↦ rw (held, ==_comm j a.id ∙ n, rest) (omega int_laws)
        | inr other ↦ rw other rest
      ]
]

clash_own : (n x : Account) → clash_account n x ≡ false → has_id n.id x ≡ false
unfolding clash_account
clash_own n x h = ground arith

cancel : (b : Bool) (x : ℤ) → (if b then neg x else pos 0) +ℤ (if b then x else pos 0) ≡ pos 0
cancel true x = omega int_laws
cancel false x = omega int_laws

module _ ⦃m : Mongo⦄ where
  module _ {attempts : ℕ} {r : Transfer} {d : Draw} {snapshot : Database}
      {out : LedgerWriteResult × Session} (run : Applied attempts r d (open_session snapshot) out)
      (current : Database) (g : Grows snapshot current) (s : Sound current) where
    -- An account of the run, as the current version has it.
    held_in :
        (j : ObjectId) (x : Account)
        → account_by_id j snapshot ≡ some x
        → x.currency ≡ r.currency
        → (y : Account) × (first (has_id j) current.accounts ≡ some y) × (y.currency ≡ r.currency)
    held_in j x found same =
        let (y, ey, k) = g.kept j x found in
        (y, sym (account_by_id-first j current) ∙ ey, sym k.same_currency ∙ same)

    placed_in :
        (c : Text) (j : ObjectId) (x : Account) (v : ℤ)
        → account_by_id j snapshot ≡ some x
        → x.currency ≡ r.currency
        → sum_by (placed j v) (keep (holds c) current.accounts)
          ≡ (if same_text c r.currency then v else pos 0)
    placed_in c j x v found same =
        let (y, ey, ec) = held_in j x found same in
        placed_once j v c current.accounts y (s.unique j) ey
        ∙ ap (λ (k : Text). if same_text c k then v else pos 0) ec

    moved_total :
        (c : Text)
        → sum_by (λ (a : Account). moved r a.id) (keep (holds c) current.accounts) ≡ pos 0
    moved_total c =
        sum_by-add (placed r.source_account_id (neg r.amount_minor))
          (placed r.destination_account_id r.amount_minor) (keep (holds c) current.accounts)
        ∙ ap₂ (λ (x y : ℤ). x +ℤ y)
            (placed_in c r.source_account_id run.source (neg r.amount_minor)
              run.participants.source_found run.participants.source_currency)
            (placed_in c r.destination_account_id run.destination r.amount_minor
              run.participants.destination_found run.participants.destination_currency)
        ∙ cancel (same_text c r.currency) r.amount_minor

    kept_sum :
        (c : Text) (f : ObjectId → ℤ)
        → sum_by
            (λ (a : Account). f a.id)
            (keep (holds c) (transferred r d run.source current).accounts)
          ≡ sum_by (λ (a : Account). f a.id) (keep (holds c) current.accounts)
    kept_sum c f = elim (Bool-cases (is_user run.source.account_type)) [
      | inl u ↦ rw u (
          sum_by-update_first (holds c) (has_id r.source_account_id) (λ a. f a.id) increment
            (λ _. refl) (λ _. refl) current.accounts)
      | inr n ↦ rw n
    ]

    pub total-transferred :
        (c : Text) → total c (transferred r d run.source current) ≡ total c current
    total-transferred c =
        kept_sum c (λ i. balance_at i (transferred r d run.source current).ledger_entries)
        ∙ ap (λ (f : Account → ℤ). sum_by f (keep (holds c) current.accounts))
            (fun_ext (λ (a : Account). balance_at-transferred r d run.source current a.id))
        ∙ sum_by-add (λ a. balance_at a.id current.ledger_entries) (λ a. moved r a.id)
            (keep (holds c) current.accounts)
        ∙ ap (λ (x : ℤ). total c current +ℤ x) (moved_total c)
        ∙ +ℤ_zero (total c current)

  -- A new account has no entries.
  pub total-insert :
      (c : Text) (db : Database) (n : Account)
      → Sound db
      → any (clash_account n) db.accounts ≡ false
      → total c (record db { accounts = db.accounts ++ n ∷ [] }) ≡ total c db
  unfolding sum_by keep
  total-insert c db n s fresh =
      let missing : account_by_id n.id db ≡ none =
        account_by_id-first n.id db
        ∙ first_of_any (has_id n.id) db.accounts (
            any_weaken (clash_account n) (has_id n.id) (λ x q. clash_own n x q) db.accounts
              fresh) in
      ap (sum_by (λ (a : Account). balance_at a.id db.ledger_entries))
        (keep-append (holds c) db.accounts (n ∷ []))
      ∙ sum_by-append (λ (a : Account). balance_at a.id db.ledger_entries)
          (keep (holds c) db.accounts) (keep (holds c) (n ∷ []))
      ∙ ap (λ (x : ℤ). total c db +ℤ x) (own (s.unborn n.id missing))
      ∙ +ℤ_zero (total c db)
    where
      own :
          balance_at n.id db.ledger_entries ≡ pos 0
          → sum_by (λ (a : Account). balance_at a.id db.ledger_entries) (keep (holds c) (n ∷ []))
            ≡ pos 0
      own z = elim (Bool-cases (same_text c n.currency)) [
        | inl y ↦ rw (y, z) (omega int_laws)
        | inr o ↦ rw o
      ]
