-- ===== src/System/Bank.antt =====
-- The ledger as a bank: an owner's type, a currency and a balance for every account number. What the
-- documents, entries, keys, counters and snapshots come to is one of three moves.
use ledgerlock.Accounts.Laws.{ensure_system_account_ok, create_account_ok}
use ledgerlock.System.Invariant.{clash_id, Unchanged-append, Reach-Inv}
use ledgerlock.System.Moves.{
  Move, held_by, view_of, moved_source, moved_destination, moved_elsewhere, available-eq,
  available-moved, holder-transferred,
}
use ledgerlock.System.Posted.{covered_now}
use ledgerlock.System.Sound.{Sound}
use ledgerlock.Ledger.Guards.{record_of, lock_of}
use ledgerlock.System.Growth.{Grows}
use ledgerlock.Ledger.Applied.{apply_transfer_ok, Applied}
use ledgerlock.Database.Laws.{account_by_id-first, has_id}
use ledgerlock.Ledger.Effects.{perform_all-transfer, transferred}
use ledgerlock.Balance.{get_available_balance_minor}
use ledgerlock.Database.{perform_all, Write, clash_account, account_by_id, Database}
use ledgerlock.Mongo.{Mongo}
use ledgerlock.Ledger.{open_session, Session, LedgerWriteResult, Draw, Transfer}
use ledgerlock.Models.{LedgerEntry, is_user, Account, ObjectId}
use ledgerlock.Errors.{ok}
use ledgerlock.System.{Unchanged, State, Step, Reach}
use ledgerlock.Base.{
  first_of_any, first-append, first-append_none, Option-cases, ◌++◌, any, first, subst, ap, +ℤ_zero,
  sym, ◌∙◌, ◌+ℤ◌, ==_refl, ◌≤ℤ◌, ne_==, List, ℤ, ℕ, ◌≡◌, ◌≢◌, inr, inl, refl, false, some, ◌∷◌, [],
}

first_self : (n : Account) → first (has_id n.id) (n ∷ []) ≡ some n
unfolding first
first_self n = rw (==_refl n.id)

module _ ⦃m : Mongo⦄ where
  module _ {attempts : ℕ} {r : Transfer} {d : Draw} {snapshot : Database}
      {out : LedgerWriteResult × Session} (run : Applied attempts r d (open_session snapshot) out)
      (current : Database) (g : Grows snapshot current)
      (ne : r.source_account_id ≢ r.destination_account_id)
      (unchanged : Unchanged (lock_of r run.source) snapshot current) (s : Sound current) where
    holder_now :
        (j : ObjectId) (x : Account)
        → account_by_id j snapshot ≡ some x
        → x.currency ≡ r.currency
        → held_by (account_by_id j current) ≡ some (is_user x.account_type, r.currency)
    holder_now j x found same =
        let (y, ey, k) = g.kept j x found in rw (ey, ← k.same_type, ← k.same_currency, same)

    Move-transferred : Move (view_of current) (view_of (transferred r d run.source current))
    Move-transferred =
        Move.payment r.source_account_id r.destination_account_id r.amount_minor
          (is_user run.source.account_type) (is_user run.destination.account_type) r.currency ne
          run.positive
          (holder_now r.source_account_id run.source run.participants.source_found
            run.participants.source_currency)
          (holder_now r.destination_account_id run.destination run.participants.destination_found
            run.participants.destination_currency)
          (λ u.
            subst (λ (x : ℤ). r.amount_minor ≤ℤ x)
              (sym (available-eq r.source_account_id current.ledger_entries))
              (covered_now run current g ne unchanged s u))
          (holder-transferred r d run.source current)
          (available-moved r d run.source current r.source_account_id
            ∙ ap
                (λ (x : ℤ).
                  get_available_balance_minor r.source_account_id current.ledger_entries +ℤ x)
                (moved_source r ne))
          (available-moved r d run.source current r.destination_account_id
            ∙ ap
                (λ (x : ℤ).
                  get_available_balance_minor r.destination_account_id current.ledger_entries +ℤ x)
                (moved_destination r ne))
          (λ i n k.
            available-moved r d run.source current i
            ∙ ap (λ (x : ℤ). get_available_balance_minor i current.ledger_entries +ℤ x)
                (moved_elsewhere r i n k)
            ∙ +ℤ_zero (get_available_balance_minor i current.ledger_entries))

  Move-same :
      (a b : Database)
      → ((i : ObjectId) → account_by_id i b ≡ account_by_id i a)
      → b.ledger_entries ≡ a.ledger_entries
      → Move (view_of a) (view_of b)
  Move-same a b same entries =
      Move.idle (λ i. ap held_by (same i))
        (λ i. ap (λ (es : List LedgerEntry). get_available_balance_minor i es) entries)

  -- An account at an unused id: the others stay, and it has no entries.
  Move-insert :
      (db : Database) (n : Account)
      → Sound db
      → any (clash_account n) db.accounts ≡ false
      → Move (view_of db) (view_of (record db { accounts = db.accounts ++ n ∷ [] }))
  unfolding first
  Move-insert db n s fresh =
      let unused =
        first_of_any (has_id n.id) db.accounts (clash_id n n.id db.accounts fresh (==_refl n.id)) in
      let missing = account_by_id-first n.id db ∙ unused in
      Move.opening n.id (is_user n.account_type, n.currency) (rw missing)
        (ap held_by (
          account_by_id-first n.id _
          ∙ first-append_none (has_id n.id) db.accounts (n ∷ []) unused
          ∙ first_self n))
        (λ j other.
          ap held_by (account_by_id-first j _ ∙ elsewhere j other ∙ sym (account_by_id-first j db)))
        (available-eq n.id db.ledger_entries ∙ s.unborn n.id missing) (λ j. refl)
    where
      elsewhere :
          (j : ObjectId)
          → j ≢ n.id
          → first (has_id j) (db.accounts ++ n ∷ []) ≡ first (has_id j) db.accounts
      elsewhere j other = elim (Option-cases (first (has_id j) db.accounts)) [
        | inl absent ↦
            first-append_none (has_id j) db.accounts (n ∷ []) absent
            ∙ rw (absent, ne_== (λ e. other (sym e)))
        | inr (a, found) ↦ first-append (has_id j) db.accounts (n ∷ []) found ∙ sym found
      ]

  -- Each step of the system is a move of the bank: in particular the amount of a transfer is covered
  -- by the balance at the moment of the commit, whatever version the run has read.
  pub Step-Move : {s t : State} → Reach s → Step s t → Move (view_of s.current) (view_of t.current)
  Step-Move {s} reached (Step.transfer attempts r d snapshot db out old ne run same done e) =
      let inv = Reach-Inv reached in
      let a = apply_transfer_ok attempts r d (open_session snapshot) out run in
      let unchanged =
        Unchanged-append (lock_of r a.source) (record_of r d) snapshot s.current
          (subst (λ (ws : List Write). Unchanged ws snapshot s.current) a.written same) in
      let (_, next_is) =
        perform_all-transfer r d a.source s.current db
          (subst (λ (ws : List Write). perform_all ws s.current ≡ ok db) a.written done) in
      subst (λ (x : Database). Move (view_of s.current) (view_of x))
        (sym (ap (λ (x : State). x.current) e ∙ next_is))
        (Move-transferred a s.current (inv.grows snapshot old) ne unchanged inv.sound)
  Step-Move {s} reached (Step.open_account owner currency label d account db run e) =
      let (_, fresh, same) = create_account_ok owner currency label d s.current account db run in
      subst (λ (x : Database). Move (view_of s.current) (view_of x))
        (sym (ap (λ (x : State). x.current) e ∙ same))
        (Move-insert s.current account (Reach-Inv reached).sound fresh)
  Step-Move {s} reached (Step.provision currency d i db run e) =
      subst (λ (x : Database). Move (view_of s.current) (view_of x))
        (sym (ap (λ (x : State). x.current) e))
        (elim (ensure_system_account_ok currency d s.current i db run) [
          | inl same ↦
              subst (λ (x : Database). Move (view_of s.current) (view_of x)) (sym same)
                (Move-same s.current s.current (λ j. refl) refl)
          | inr (n, fresh, same) ↦
              subst (λ (x : Database). Move (view_of s.current) (view_of x)) (sym same)
                (Move-insert s.current n (Reach-Inv reached).sound fresh)
        ])
  Step-Move {s} reached (Step.authenticate us rs e) =
      subst (λ (x : Database). Move (view_of s.current) (view_of x))
        (sym (ap (λ (x : State). x.current) e))
        (Move-same s.current (record s.current { users = us; revoked_tokens = rs })
          (λ j. account_by_id-first j _ ∙ sym (account_by_id-first j s.current)) refl)
