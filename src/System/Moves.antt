-- ===== src/System/Moves.antt =====
-- A bank and its moves, and what a transfer comes to in it.
use ledgerlock.Balance.Laws.{balance-compute_balance, balance_at}
use ledgerlock.Database.Laws.{bump}
use ledgerlock.Ledger.Effects.{
  balance_at-transferred, account_by_id-transferred, moved, transferred,
}
use ledgerlock.Balance.{get_available_balance_minor}
use ledgerlock.Database.{account_by_id, Database}
use ledgerlock.Mongo.{Mongo}
use ledgerlock.Ledger.{Draw, Transfer}
use ledgerlock.Models.{LedgerEntry, is_user, Account, ObjectId}
use ledgerlock.Base.{
  ap, +ℤ_zero, sym, ◌∙◌, +ℤ_comm, ◌+ℤ◌, neg, ==_refl, ◌≤ℤ◌, ne_==, List, ℤ, ◌≡◌, ◌≢◌, Bool, Option,
  pos, arith, refl, true, some, none, Text,
}

pub record Bank : Type 0 where
  pub holder : ObjectId → Option (Bool × Text)  -- of a USER account, and in which currency
  pub balance : ObjectId → ℤ

abbrev pub held_by : Option Account → Option (Bool × Text)
held_by none = none
held_by (some a) = some (is_user a.account_type, a.currency)

pub data Move (b c : Bank) : Type 0 where
  idle :
      ((i : ObjectId) → c.holder i ≡ b.holder i)
      → ((i : ObjectId) → c.balance i ≡ b.balance i)
      → Move b c
  -- A new account starts at zero.
  opening :
      (i : ObjectId) (who : Bool × Text)
      → b.holder i ≡ none
      → c.holder i ≡ some who
      → ((j : ObjectId) → j ≢ i → c.holder j ≡ b.holder j)
      → c.balance i ≡ pos 0
      → ((j : ObjectId) → c.balance j ≡ b.balance j)
      → Move b c
  -- A positive amount goes between two accounts in one currency; a USER account must have it.
  payment :
      (source destination : ObjectId) (amount : ℤ) (user other : Bool) (currency : Text)
      → source ≢ destination
      → pos 1 ≤ℤ amount
      → b.holder source ≡ some (user, currency)
      → b.holder destination ≡ some (other, currency)
      → (user ≡ true → amount ≤ℤ b.balance source)
      → ((i : ObjectId) → c.holder i ≡ b.holder i)
      → c.balance source ≡ b.balance source +ℤ neg amount
      → c.balance destination ≡ b.balance destination +ℤ amount
      → ((i : ObjectId) → i ≢ source → i ≢ destination → c.balance i ≡ b.balance i)
      → Move b c

held_by-bump : (o : Option Account) → held_by (bump o) ≡ held_by o
held_by-bump none = refl
held_by-bump (some a) = refl

pub moved_source :
    (r : Transfer)
    → r.source_account_id ≢ r.destination_account_id
    → moved r r.source_account_id ≡ neg r.amount_minor
moved_source r ne =
    rw (==_refl r.source_account_id, ne_== (λ e. ne (sym e))) (+ℤ_zero (neg r.amount_minor))

pub moved_destination :
    (r : Transfer)
    → r.source_account_id ≢ r.destination_account_id
    → moved r r.destination_account_id ≡ r.amount_minor
moved_destination r ne =
    rw (==_refl r.destination_account_id, ne_== ne)
      (+ℤ_comm (pos 0) r.amount_minor ∙ +ℤ_zero r.amount_minor)

pub moved_elsewhere :
    (r : Transfer) (i : ObjectId)
    → i ≢ r.source_account_id
    → i ≢ r.destination_account_id
    → moved r i ≡ pos 0
moved_elsewhere r i n k = rw (ne_== (λ e. n (sym e)), ne_== (λ e. k (sym e))) (+ℤ_zero (pos 0))

module _ ⦃m : Mongo⦄ where
  abbrev pub view_of : Database → Bank
  view_of db = record {
    holder = λ i. held_by (account_by_id i db);
    balance = λ i. get_available_balance_minor i db.ledger_entries;
  }

  -- The service's balance is the sum of the account's entries.
  pub available-eq :
      (i : ObjectId) (es : List LedgerEntry) → get_available_balance_minor i es ≡ balance_at i es
  unfolding get_available_balance_minor
  available-eq i es = balance-compute_balance i es

  pub available-moved :
      (r : Transfer) (d : Draw) (source : Account) (db : Database) (i : ObjectId)
      → get_available_balance_minor i (transferred r d source db).ledger_entries
        ≡ get_available_balance_minor i db.ledger_entries +ℤ moved r i
  available-moved r d source db i =
      available-eq i _
      ∙ balance_at-transferred r d source db i
      ∙ ap (λ (x : ℤ). x +ℤ moved r i) (sym (available-eq i db.ledger_entries))

  pub holder-transferred :
      (r : Transfer) (d : Draw) (source : Account) (db : Database) (i : ObjectId)
      → held_by (account_by_id i (transferred r d source db)) ≡ held_by (account_by_id i db)
  holder-transferred r d source db i =
      ground (arith, account_by_id-transferred r d source db i, held_by-bump (account_by_id i db))
