-- ===== src/System/Posted.antt =====
-- A transfer on a sound version that has grown from its snapshot leaves a sound version.
use ledgerlock.System.Sound.{Sound}
use ledgerlock.Accounts.{is_system_for}
use ledgerlock.Database.Laws.{has_id}
use ledgerlock.Balance.Laws.{balance_at}
use ledgerlock.Ledger.Effects.{
  moved, balance_at-transferred, account_by_id-transferred, transferred,
}
use ledgerlock.Ledger.Guards.{credit_of, debit_of, lock_of}
use ledgerlock.Ledger.Applied.{Applied}
use ledgerlock.System.Growth.{balance-transferred_grows, Kept, Grows-transferred, Grows}
use ledgerlock.Ledger.Pairs.{IsPair-transfer, pair}
use ledgerlock.Ledger.{header, open_session, Session, LedgerWriteResult, Draw, Transfer}
use ledgerlock.Database.{increment, clash_transaction, account_by_id, Database}
use ledgerlock.System.{Unchanged}
use ledgerlock.Mongo.{Mongo}
use ledgerlock.Models.{is_user, Account, ObjectId}
use ledgerlock.Base.{
  length-keep-update_first, length, ◌≤◌, Bool, keep, neg, +ℤ_parts, subst, eq_of_==, neg_parts, ◌∙◌,
  sym, Bool-cases, any, ◌+ℤ◌, ℤ, ◌==◌, some_eq, ap, ◌≢◌, ◌≤ℤ◌, Option-cases, ◌≡◌, pos, inr, inl,
  arith, refl, false, true, some, none, ℕ,
}

not_== : {a b i : ℕ} → a ≢ b → a ≡ i → (b == i) ≡ false
not_== ne e = ground arith

-- A source that covers the amount stays at zero or above.
still_covered :
    (r : Transfer) (x : ℤ) (i : ObjectId)
    → (r.source_account_id == i) ≡ true
    → (r.destination_account_id == i) ≡ false
    → r.amount_minor ≤ℤ x
    → pos 0 ≤ℤ x +ℤ moved r i
still_covered r x i at_source other covered =
    rw (at_source, other)
      (omega (
        arith,
        neg_parts r.amount_minor,
        +ℤ_parts (neg r.amount_minor) (pos 0),
        +ℤ_parts x (neg r.amount_minor +ℤ pos 0),
      ))

not_moved :
    (r : Transfer) (x : ℤ) (i : ObjectId)
    → x ≡ pos 0
    → (r.source_account_id == i) ≡ false
    → (r.destination_account_id == i) ≡ false
    → x +ℤ moved r i ≡ pos 0
unfolding ◌+ℤ◌
not_moved r x i zero_x a b = rw (a, b, zero_x)

module _ ⦃m : Mongo⦄ where
  not_found_ne :
      (db : Database) (j i : ObjectId) (b : Account)
      → account_by_id j db ≡ some b
      → account_by_id i db ≡ none
      → (j == i) ≡ false
  not_found_ne db j i b found missing = elim (Bool-cases (j == i)) [
    | inl e ↦ absurd (
        cc (sym missing ∙ ap (λ (k : ObjectId). account_by_id k db) (sym (eq_of_== j i e)) ∙ found))
    | inr n ↦ n
  ]

  -- The premise of a commit, for a source that is locked.
  lock_same :
      (r : Transfer) (source : Account) (snapshot current : Database)
      → Unchanged (lock_of r source) snapshot current
      → is_user source.account_type ≡ true
      → account_by_id r.source_account_id snapshot ≡ account_by_id r.source_account_id current
  lock_same r source snapshot current h u = (rw u at h).0

  -- An account after a transfer, as it was before.
  before_transfer :
      (r : Transfer) (d : Draw) (source : Account) (db : Database) (i : ObjectId) (a : Account)
      → account_by_id i (transferred r d source db) ≡ some a
      → (b : Account) × (account_by_id i db ≡ some b) × (b.account_type ≡ a.account_type)
  before_transfer r d source db i a e = elim (Option-cases (account_by_id i db)) [
    | inl missing ↦ absurd (ground (arith, account_by_id-transferred r d source db i))
    | inr (b, eb) ↦ (b, eb, ground (arith, account_by_id-transferred r d source db i))
  ]

  module _ {attempts : ℕ} {r : Transfer} {d : Draw} {snapshot : Database}
      {out : LedgerWriteResult × Session} (run : Applied attempts r d (open_session snapshot) out)
      (current : Database) (g : Grows snapshot current)
      (ne : r.source_account_id ≢ r.destination_account_id)
      (unchanged : Unchanged (lock_of r run.source) snapshot current) (s : Sound current) where
    -- The source in the current version.
    held :
        (b : Account) × (account_by_id r.source_account_id current ≡ some b)
        × Kept r.source_account_id snapshot current run.source b
    held = g.kept r.source_account_id run.source run.participants.source_found

    pub Grows-next : Grows current (transferred r d run.source current)
    Grows-next =
        let (b, eb, k) = held in
        Grows-transferred r d run.source b current run.positive eb k.same_type

    -- A USER source is the account that the run read, since nothing else has updated it.
    pub covered_now :
        is_user run.source.account_type ≡ true
        → r.amount_minor ≤ℤ balance_at r.source_account_id current.ledger_entries
    covered_now u =
        let (b, eb, k) = held in
        let lock : account_by_id r.source_account_id snapshot
            ≡ account_by_id r.source_account_id current =
          lock_same r run.source snapshot current unchanged u in
        let same : run.source ≡ b = some_eq (sym run.participants.source_found ∙ lock ∙ eb) in
        omega (
          arith,
          run.covered u,
          k.grown u (ap (λ (x : Account). x.debit_serialisation_counter) same),
        )

    source_is_user :
        (i : ObjectId) (b : Account)
        → r.source_account_id ≡ i
        → account_by_id i current ≡ some b
        → is_user b.account_type ≡ true
        → is_user run.source.account_type ≡ true
    source_is_user i b same_id eb u =
        let (h, eh, k) = held in
        let same : h ≡ b =
          some_eq (sym eh ∙ ap (λ (j : ObjectId). account_by_id j current) same_id ∙ eb) in
        ap is_user (k.same_type ∙ ap (λ (x : Account). x.account_type) same) ∙ u

    nonneg_next :
        (i : ObjectId) (a : Account)
        → account_by_id i (transferred r d run.source current) ≡ some a
        → is_user a.account_type ≡ true
        → pos 0 ≤ℤ balance_at i (transferred r d run.source current).ledger_entries
    nonneg_next i a e u =
        let (b, eb, ty) = before_transfer r d run.source current i a e in
        let is_user_b : is_user b.account_type ≡ true = ap is_user ty ∙ u in
        elim (Bool-cases (r.source_account_id == i)) [
          | inl at_source ↦
              let same_id : r.source_account_id ≡ i = eq_of_== _ _ at_source in
              subst (λ (x : ℤ). pos 0 ≤ℤ x) (sym (balance_at-transferred r d run.source current i))
                (still_covered r (balance_at i current.ledger_entries) i at_source
                  (not_== ne same_id)
                  (subst (λ (j : ObjectId). r.amount_minor ≤ℤ balance_at j current.ledger_entries)
                    same_id (covered_now (source_is_user i b same_id eb is_user_b))))
          | inr other ↦ omega (
            arith,
            s.nonneg i b eb is_user_b,
            balance-transferred_grows r d run.source current i run.positive other,
          )
        ]

    unborn_next :
        (i : ObjectId)
        → account_by_id i (transferred r d run.source current) ≡ none
        → balance_at i (transferred r d run.source current).ledger_entries ≡ pos 0
    unborn_next i e =
        let missing : account_by_id i current ≡ none =
          ground (arith, account_by_id-transferred r d run.source current i) in
        let (b, eb, _) = held in
        let (c, ec, _) =
          g.kept r.destination_account_id run.destination run.participants.destination_found in
        balance_at-transferred r d run.source current i
        ∙ not_moved r (balance_at i current.ledger_entries) i (s.unborn i missing)
            (not_found_ne current r.source_account_id i b eb missing)
            (not_found_ne current r.destination_account_id i c ec missing)

    -- The serialisation write changes no field that a lookup tests.
    kept_accounts :
        (p : Account → Bool)
        → ((a : Account) → p (increment a) ≡ p a)
        → length (keep p (transferred r d run.source current).accounts)
          ≡ length (keep p current.accounts)
    kept_accounts p same = elim (Bool-cases (is_user run.source.account_type)) [
      | inl u ↦
          rw u (
            length-keep-update_first p (has_id r.source_account_id) increment same current.accounts)
      | inr n ↦ rw n
    ]

    pub Sound-next :
        any (clash_transaction (header r d)) current.transactions ≡ false
        → Sound (transferred r d run.source current)
    Sound-next no_clash = record {
      paired =
          pair s.paired (header r d) (debit_of r d) (credit_of r d)
            (IsPair-transfer r d run.positive) no_clash;
      nonneg = nonneg_next;
      unborn = unborn_next;
      unique =
          λ i. subst (λ (n : ℕ). n ≤ 1) (sym (kept_accounts (has_id i) (λ _. refl))) (s.unique i);
      one_boundary = λ c.
          subst (λ (n : ℕ). n ≤ 1) (sym (kept_accounts (is_system_for c) (λ _. refl)))
            (s.one_boundary c);
    }
