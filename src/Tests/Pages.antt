-- ===== src/Tests/Pages.antt =====
-- Two accounts of one caller on a page.
use ledgerlock.Routes.Pages.{IsPage, list_accounts-Ascending, list_accounts, AccountListResponse}
use ledgerlock.Routes.{is_owner}
use ledgerlock.Accounts.{list_accounts_for_owner}
use ledgerlock.Mongo.{Ascending}
use ledgerlock.Security.{AuthenticatedUser}
use ledgerlock.Database.{Database}
use ledgerlock.Models.{Account}
use ledgerlock.Errors.{ok}
use ledgerlock.Tests.Setup.{server, boundary, wallet, funded}
use ledgerlock.Tests.Sorting.{sorted, inserted}
use ledgerlock.Base.{All, codes, keep, length, pos, none, true, ◌≤◌, ◌≡◌, ◌∷◌, [], refl}

abbrev caller : AuthenticatedUser
caller = record { id = 10; email = codes "a@b.cd"; jti = codes "j1"; token_expires_at = 1_850_000 }

-- Stored after the wallet, and older.
abbrev savings : Account
savings = record wallet { id = 3; label = codes "savings"; created_at = 99 }

abbrev two_accounts : Database
two_accounts = record funded { accounts = boundary ∷ wallet ∷ savings ∷ [] }

abbrev listed : AccountListResponse
listed = record {
  accounts = savings ∷ wallet ∷ [];
  page = record { limit = pos 50; offset = pos 0; returned = 2 };
}

both : list_accounts none none caller two_accounts ≡ ok listed
unfolding list_accounts list_accounts_for_owner server sorted inserted keep
both = refl

list_accounts-Ascending_example :
    All (λ a. is_owner 10 a ≡ true) listed.accounts
    × Ascending (λ (a : Account). a.created_at) listed.accounts
    × (length listed.accounts ≤ 200)
    × (listed.page.returned ≡ length listed.accounts)
    × IsPage 50 0 (keep (is_owner 10) two_accounts.accounts) listed.accounts
list_accounts-Ascending_example = list_accounts-Ascending none none caller two_accounts listed both
