-- ===== src/Routes/Shown.antt =====
-- Who is shown a transaction: every owner of one of its accounts whose accounts fit on one page.
use ledgerlock.Routes.Owned.{party}
use ledgerlock.Mongo.Pages.{page_whole}
use ledgerlock.Ledger.Create.{get_transaction}
use ledgerlock.Database.{Database}
use ledgerlock.Security.{AuthenticatedUser}
use ledgerlock.Routes.{is_owner, read_transaction}
use ledgerlock.Accounts.{max_page_size, list_accounts_for_owner}
use ledgerlock.Mongo.{Mongo}
use ledgerlock.Models.{Transaction, ObjectId, Account}
use ledgerlock.Base.{
  ◌==◌, ap, ◌||◌, ◌∙◌, ◌≤◌, ◌≡◌, ◌&&◌, Bool, length, List, keep, any, arith, refl, true, some, ◌∷◌,
  [],
}
use ledgerlock.Errors.{ok}

any-keep :
    (p q : Account → Bool) (l : List Account)
    → any (λ a. p a && q a) l ≡ true
    → any q (keep p l) ≡ true
unfolding any keep
any-keep p q [] h = absurd (cc)
any-keep p q (a ∷ l) h = ground (arith, any-keep p q l)

module _ ⦃m : Mongo⦄ where
  -- A transaction that exists is shown to a caller who owns its source or its destination, if no more
  -- accounts than the page limit have that owner.
  pub read_transaction_shown :
      (i : ObjectId) (caller : AuthenticatedUser) (seen seen_accounts : Database) (t : Transaction)
      → get_transaction i seen ≡ some t
      → length (m.find (is_owner caller.id) seen_accounts.accounts) ≤ max_page_size
      → any
          (λ (a : Account).
            is_owner caller.id a
            && (a.id == t.source_account_id || a.id == t.destination_account_id))
          seen_accounts.accounts
        ≡ true
      → read_transaction i caller seen seen_accounts ≡ ok t
  unfolding read_transaction list_accounts_for_owner
  read_transaction_shown i caller seen seen_accounts t found few involved =
      let mine = m.find (is_owner caller.id) seen_accounts.accounts in
      let listed =
        page_whole (λ (a : Account). a.created_at) (party t) max_page_size mine few
          (ap (any (party t)) (m.find_keep (is_owner caller.id) seen_accounts.accounts)
            ∙ any-keep (is_owner caller.id) (party t) seen_accounts.accounts involved) in
      rw (found, listed) refl
