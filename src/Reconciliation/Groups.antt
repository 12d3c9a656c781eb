-- ===== src/Reconciliation/Groups.antt =====
-- Every entry of a ledger of pairs has its header, and the entries of a header are one DEBIT and one
-- CREDIT that sum to zero.
use mathlib.Core.List.{append-nil}
use ledgerlock.Database.{clash_transaction}
use ledgerlock.Reconciliation.Sums.{pair_zero}
use ledgerlock.Ledger.Pairs.{nothing_written, pair, IsPair, Paired}
use ledgerlock.Reconciliation.{group_row, is_unbalanced}
use ledgerlock.Models.{is_credit, is_debit, LedgerEntry, Transaction, ObjectId}
use ledgerlock.Base.{
  ap, if◌then◌else◌, ◌∙◌, sym, keep-append, ==_refl, any_weaken, All-map_pred, Bool-cases,
  any-append, All-append, ◌++◌, ◌⊎◌, ◌≡◌, count_by, ◌==◌, All, keep, Bool, List, any, inr, inl,
  arith, refl, false, true, ◌∷◌, [],
}

abbrev pub has_header : LedgerEntry → Transaction → Bool
has_header e t = e.transaction_id == t.id

abbrev pub of_header : ObjectId → LedgerEntry → Bool
of_header k e = k == e.transaction_id

abbrev pub is_header : ObjectId → Transaction → Bool
is_header k t = k == t.id

any_more :
    (p : Transaction → Bool) (ts : List Transaction) (t : Transaction)
    → any p ts ≡ true
    → any p (ts ++ t ∷ []) ≡ true
any_more p ts t h = ground (arith, any-append p ts (t ∷ []))

any_last :
    (p : Transaction → Bool) (ts : List Transaction) (t : Transaction)
    → p t ≡ true
    → any p (ts ++ t ∷ []) ≡ true
unfolding any
any_last p ts t h = ground (arith, any-append p ts (t ∷ []))

pub headed :
    {ts : List Transaction} {es : List LedgerEntry}
    → Paired ts es
    → All (λ e. any (has_header e) ts ≡ true) es
headed nothing_written = tt
headed (pair {ts = ts} {es = es} p t d c q _) =
    All-append (λ e. any (has_header e) (ts ++ t ∷ []) ≡ true) es (d ∷ c ∷ [])
      (All-map_pred (λ e. any (has_header e) ts ≡ true)
        (λ e. any (has_header e) (ts ++ t ∷ []) ≡ true) (λ e. any_more (has_header e) ts t) es
        (headed p))
      (
        any_last (has_header d) ts t (ap (λ i. i == t.id) q.debit_header ∙ ==_refl t.id),
        (any_last (has_header c) ts t (ap (λ i. i == t.id) q.credit_header ∙ ==_refl t.id), tt),
      )

pair_balanced :
    (t : Transaction) (d c : LedgerEntry)
    → IsPair t d c
    → is_unbalanced (group_row (d ∷ c ∷ [])) ≡ false
unfolding is_unbalanced group_row count_by
pair_balanced t d c p =
    rw
      (
        ap is_debit p.debit_direction,
        ap is_debit p.credit_direction,
        ap is_credit p.debit_direction,
        ap is_credit p.credit_direction,
        pair_zero t d c p,
      )
      refl

no_clash_id :
    (k : ObjectId) (t u : Transaction)
    → (k == t.id) ≡ true
    → clash_transaction t u ≡ false
    → is_header k u ≡ false
unfolding clash_transaction
no_clash_id k t u y e = ground arith

fresh_header :
    (k : ObjectId) (t : Transaction) (ts : List Transaction)
    → (k == t.id) ≡ true
    → any (clash_transaction t) ts ≡ false
    → any (is_header k) ts ≡ false
fresh_header k t ts y fresh =
    any_weaken (clash_transaction t) (is_header k) (λ u e. no_clash_id k t u y e) ts fresh

any_same :
    (p : Transaction → Bool) (ts : List Transaction) (t : Transaction)
    → p t ≡ false
    → any p (ts ++ t ∷ []) ≡ any p ts
unfolding any
any_same p ts t h = ground (arith, any-append p ts (t ∷ []))

-- What the entries of a pair add to a group.
pair_group :
    (k : ObjectId) (es : List LedgerEntry) (t : Transaction) (d c : LedgerEntry) (b : Bool)
    → IsPair t d c
    → (k == t.id) ≡ b
    → keep (of_header k) (es ++ d ∷ c ∷ [])
      ≡ keep (of_header k) es ++ (if b then d ∷ c ∷ [] else [])
unfolding keep
pair_group k es t d c b q e =
    keep-append (of_header k) es (d ∷ c ∷ [])
    ∙ rw (ap (λ i. k == i) q.debit_header ∙ e, ap (λ i. k == i) q.credit_header ∙ e)
        (ap (λ (l : List LedgerEntry). keep (of_header k) es ++ l) (same_if b))
  where
    same_if :
        (b : Bool)
        → (if b then d ∷ (if b then c ∷ [] else []) else (if b then c ∷ [] else []))
          ≡ (if b then d ∷ c ∷ [] else [])
    same_if true = refl
    same_if false = refl

-- The entries of a header: none of an unknown one, and a balanced pair of a known one.
pub header_group :
    {ts : List Transaction} {es : List LedgerEntry} (k : ObjectId)
    → Paired ts es
    → ((any (is_header k) ts ≡ false) × (keep (of_header k) es ≡ []))
      ⊎ ((any (is_header k) ts ≡ true)
          × (is_unbalanced (group_row (keep (of_header k) es)) ≡ false))
unfolding any keep
header_group k nothing_written = inl (refl, refl)
header_group k (pair {ts = ts} {es = es} p t d c q fresh) = elim (Bool-cases (k == t.id)) [
  | inl y ↦ elim (header_group k p) [
    | inl (_, empty) ↦ inr (
      any_last (is_header k) ts t y,
      rw (pair_group k es t d c true q y, empty) (pair_balanced t d c q),
    )
    | inr (known, _) ↦ absurd (cc (sym (fresh_header k t ts y fresh) ∙ known))
  ]
  | inr n ↦ elim (header_group k p) [
    | inl (a, b) ↦
        inl (any_same (is_header k) ts t n ∙ a, pair_group k es t d c false q n ∙ append-nil _ ∙ b)
    | inr (a, b) ↦
        inr (any_same (is_header k) ts t n ∙ a, rw (pair_group k es t d c false q n, append-nil) b)
  ]
]
