-- ===== src/System/Bounds.antt =====
-- How large a balance can grow, with the bound that the requests put on an amount.
use ledgerlock.System.Invariant.{Reach-Inv}
use ledgerlock.Ledger.Pairs.{Paired, IsPair}
use ledgerlock.Balance.{get_available_balance_minor}
use ledgerlock.Balance.Laws.{
  balance_at-append, balance-compute_balance, balance_at-pair, balance_at,
}
use ledgerlock.Mongo.{Mongo}
use ledgerlock.Models.{max_amount_minor, LedgerEntry, ObjectId, Transaction}
use ledgerlock.System.{State, Reach}
use ledgerlock.Base.{
  sym, +ℤ_comm, +ℤ_parts, length-append, +ℤ_zero, neg_parts, neg, subst, add_neg_self, ◌==◌,
  Bool-cases, ◌*◌, ◌+ℤ◌, ◌++◌, ◌≤◌, length, sum_by, ◌+◌, keep, ◌≤ℤ◌, All, ℤ, List, pos, inr, inl,
  arith, ◌∷◌, [], ℕ,
}

-- An amount that a request may have.
abbrev pub IsBounded : Transaction → Type 0
IsBounded t = t.amount_minor ≤ℤ pos max_amount_minor

-- Between minus and plus a bound.
abbrev pub Within : ℕ → ℤ → Type 0
Within bound x = (neg (pos bound) ≤ℤ x) × (x ≤ℤ pos bound)

All-append_left :
    (ts us : List Transaction) → All IsBounded (ts ++ us) → All IsBounded ts × All IsBounded us
All-append_left [] us h = (tt, h)
All-append_left (t ∷ ts) us h = let (l, r) = All-append_left ts us h.1 in ((h.0, l), r)

zero_Within : (bound : ℕ) → Within bound (pos 0)
zero_Within bound = (omega (arith, neg_parts (pos bound)), omega arith)

Within-add : (n k : ℕ) (x y : ℤ) → Within n x → Within k y → Within (n + k) (x +ℤ y)
Within-add n k x y (a, b) (c, d) = (
  omega (arith, neg_parts (pos (n + k)), neg_parts (pos n), neg_parts (pos k), +ℤ_parts x y, a, c),
  omega (arith, +ℤ_parts x y, b, d),
)

-- The one entry of a pair that is on the account, if the two accounts differ; else both.
pair_Within :
    (i : ObjectId) (t : Transaction) (d c : LedgerEntry)
    → IsPair t d c
    → IsBounded t
    → Within max_amount_minor (balance_at i (d ∷ c ∷ []))
pair_Within i t d c p h =
    rw (balance_at-pair i d c, p.debit_signed, p.credit_signed)
      (elim (Bool-cases (d.account_id == i)) [
        | inl x ↦ elim (Bool-cases (c.account_id == i)) [
          | inl y ↦ rw (x, y, add_neg_self t.amount_minor) (zero_Within max_amount_minor)
          | inr y ↦
              rw (x, y, +ℤ_zero (neg t.amount_minor))
                (
                  omega (arith, neg_parts t.amount_minor, neg_parts (pos max_amount_minor), h),
                  omega (arith, neg_parts t.amount_minor, p.positive),
                )
        ]
        | inr x ↦ elim (Bool-cases (c.account_id == i)) [
          | inl y ↦
              rw (x, y, +ℤ_comm (pos 0) t.amount_minor, +ℤ_zero t.amount_minor)
                (omega (arith, neg_parts (pos max_amount_minor), p.positive), h)
          | inr y ↦ rw (x, y, +ℤ_zero (pos 0)) (zero_Within max_amount_minor)
        ]
      ])

Paired-Within :
    {ts : List Transaction} {es : List LedgerEntry}
    → Paired ts es
    → All IsBounded ts
    → (i : ObjectId) → Within (length ts * max_amount_minor) (balance_at i es)
unfolding balance_at keep sum_by
Paired-Within Paired.nothing_written bounded i = zero_Within 0
Paired-Within (Paired.pair {ts} {es} p t d c q _) bounded i =
    let (before, last) = All-append_left ts (t ∷ []) bounded in
    subst (λ (n : ℕ). Within n (balance_at i (es ++ d ∷ c ∷ [])))
      (omega (arith, length-append {0} ts (t ∷ [])))
      (subst (Within (length ts * max_amount_minor + max_amount_minor))
        (sym (balance_at-append i es (d ∷ c ∷ [])))
        (Within-add (length ts * max_amount_minor) max_amount_minor (balance_at i es)
          (balance_at i (d ∷ c ∷ [])) (Paired-Within p before i) (pair_Within i t d c q last.0)))

module _ ⦃m : Mongo⦄ where
  -- In a state that the system reaches, whose n transactions have at most 10 ^ 12 units each, as the
  -- requests demand, every balance lies between minus and plus any bound that n * 10 ^ 12 does not
  -- pass. Up to 9,223,372 transactions 2 ^ 63 - 1 is such a bound, and a balance is a signed 64-bit
  -- integer of the server.
  pub balance_bounds :
      {s : State}
      → Reach s
      → All IsBounded s.current.transactions
      → (bound : ℕ) → length s.current.transactions * max_amount_minor ≤ bound
      → (i : ObjectId) → Within bound (get_available_balance_minor i s.current.ledger_entries)
  unfolding get_available_balance_minor
  balance_bounds {s} reached bounded bound enough i =
      let (low, high) = Paired-Within (Reach-Inv reached).sound.paired bounded i in
      let n = length s.current.transactions * max_amount_minor in
      rw (balance-compute_balance i s.current.ledger_entries) (
        omega (arith, low, neg_parts (pos n), neg_parts (pos bound), enough),
        omega (arith, high, enough),
      )
