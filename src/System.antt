-- ===== src/System.antt =====
-- Many workers over one database. MongoDB's transactions have snapshot isolation: a run of
-- `_apply_transfer` reads one committed version, perhaps an old one, and its writes are committed to
-- the newest. The server may refuse any commit; it admits one only if no document that the session
-- updated has changed since the snapshot (else: WriteConflict), and if the unique indexes and
-- validators accept the inserts. The steps have these as premises, and leave all else open: which
-- run commits, when, and on which snapshot.
use ledgerlock.Accounts.{ensure_system_account, create_account, AccountDraw}
use ledgerlock.Ledger.{open_session, apply_transfer, Session, LedgerWriteResult, Draw, Transfer}
use ledgerlock.Mongo.{Mongo}
use ledgerlock.Database.{
  insert_user, perform_all, insert_account, insert_entries, insert_transaction, account_by_id,
  increment_counter, Write, empty_database, Database,
}
use ledgerlock.Models.{RevokedToken, User, Account, ObjectId, system, user}
use ledgerlock.Errors.{◌>>◌, ◌>>=◌, err, ok}
pub mod Growth
pub mod Sound
pub mod Posted
pub mod Invariant
pub mod Safety
pub mod Transfers
pub mod Summed
mod Totals
pub mod Conserved
pub mod Bounds
pub mod Moves
pub mod Bank
pub mod Typed
use ledgerlock.Base.{
  Text, ◌≢◌, ◌⊎◌, ◌≡◌, List, pos, inr, inl, arith, refl, suc, zero, false, true, some, none, ◌∷◌,
  [], ℕ,
}

pub record State : Type 0 where
  pub current : Database
  pub history : List Database  -- the earlier committed versions

abbrev pub init : State
init = record { current = empty_database; history = [] }

abbrev pub Elem : Database → List Database → Type 0
Elem v [] = ⊥
Elem v (w ∷ l) = (v ≡ w) ⊎ Elem v l

-- The state after a commit of `db`.
abbrev pub commit : Database → State → State
commit db s = record { current = db; history = s.current ∷ s.history }

module _ ⦃m : Mongo⦄ where
  -- No account that the writes update has changed between the two versions.
  abbrev pub Unchanged : List Write → Database → Database → Type 0
  Unchanged [] snapshot current = Unit
  Unchanged (increment_counter i ∷ ws) snapshot current =
      (account_by_id i snapshot ≡ account_by_id i current) × Unchanged ws snapshot current
  Unchanged (insert_transaction t ∷ ws) snapshot current = Unchanged ws snapshot current
  Unchanged (insert_entries es ∷ ws) snapshot current = Unchanged ws snapshot current
  Unchanged (insert_account a ∷ ws) snapshot current = Unchanged ws snapshot current
  Unchanged (insert_user u ∷ ws) snapshot current = Unchanged ws snapshot current

  pub data Step (s t : State) : Type 0 where
    -- A run of `_apply_transfer` on some committed version, and its commit.
    transfer :
        (attempts : ℕ) (r : Transfer) (d : Draw) (snapshot db : Database)
        (out : LedgerWriteResult × Session)
        → Elem snapshot (s.current ∷ s.history)
        → r.source_account_id ≢ r.destination_account_id
        → apply_transfer attempts r d (open_session snapshot) ≡ ok out
        → Unchanged out.1.writes snapshot s.current
        → perform_all out.1.writes s.current ≡ ok db
        → t ≡ commit db s
        → Step s t
    -- `create_account`
    open_account :
        (owner : ObjectId) (currency label : Text) (d : AccountDraw) (account : Account)
        (db : Database)
        → create_account owner currency label d s.current ≡ ok (account, db)
        → t ≡ commit db s
        → Step s t
    -- A round of `ensure_system_accounts`; what other workers do are other steps.
    provision :
        (currency : Text) (d : AccountDraw) (i : ObjectId) (db : Database)
        → ensure_system_account currency d (λ x. x) s.current ≡ ok (i, db)
        → t ≡ commit db s
        → Step s t
    -- Registration, logout and the removal of expired revocations leave the ledger alone.
    authenticate :
        (us : List User) (rs : List RevokedToken)
        → t ≡ commit (record s.current { users = us; revoked_tokens = rs }) s
        → Step s t

  pub data Reach : State → Type 0 where
    start : Reach init
    later : {s t : State} → Reach s → Step s t → Reach t
