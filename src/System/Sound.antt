-- ===== src/System/Sound.antt =====
-- The invariant of a committed version, and of the versions of a state.
use ledgerlock.Accounts.{is_system_for}
use ledgerlock.Database.Laws.{has_id}
use ledgerlock.Balance.Laws.{balance_at}
use ledgerlock.System.Growth.{Grows}
use ledgerlock.Ledger.Pairs.{Paired}
use ledgerlock.Database.{account_by_id, Database}
use ledgerlock.System.{Elem, State}
use ledgerlock.Mongo.{Mongo}
use ledgerlock.Models.{is_user, Account, ObjectId}
use ledgerlock.Base.{length, Text, ◌≤◌, keep, ◌≤ℤ◌, ◌≡◌, pos, true, some, none, ◌∷◌}

module _ ⦃m : Mongo⦄ where
  -- The ledger is made of pairs, no USER account is below zero, and no entry is on an account that
  -- does not exist.
  pub record Sound (db : Database) : Type 0 where
    pub paired : Paired db.transactions db.ledger_entries
    pub nonneg :
        (i : ObjectId) (a : Account)
        → account_by_id i db ≡ some a
        → is_user a.account_type ≡ true
        → pos 0 ≤ℤ balance_at i db.ledger_entries
    pub unborn : (i : ObjectId) → account_by_id i db ≡ none → balance_at i db.ledger_entries ≡ pos 0
    pub unique : (i : ObjectId) → length (keep (has_id i) db.accounts) ≤ 1
    pub one_boundary : (c : Text) → length (keep (is_system_for c) db.accounts) ≤ 1

  pub record Inv (s : State) : Type 0 where
    pub grows : (v : Database) → Elem v (s.current ∷ s.history) → Grows v s.current
    pub sound : Sound s.current
