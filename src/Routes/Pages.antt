-- ===== src/Routes/Pages.antt =====
-- The list of accounts of app/routes/accounts.py, and the handler of
-- app/routes/reconciliation.py. The bounds of a page are query values, which FastAPI checks.
use ledgerlock.Mongo.Pages.{page_length, page-Ascending, page_All}
use ledgerlock.Accounts.{
  bson_limit, default_page_size, max_page_size, list_accounts_for_owner, bounded_limit,
}
use ledgerlock.Routes.{is_owner}
use ledgerlock.Config.{or_default, is_between}
use ledgerlock.Reconciliation.{reconcile, ReconciliationReport}
use ledgerlock.Security.{AuthenticatedUser}
use ledgerlock.Database.{Database}
use ledgerlock.Mongo.{SameMembers, Ascending, Mongo}
use ledgerlock.Models.{Account, Time}
use ledgerlock.Base.{
  drop, ap, take, ◌∙◌, negsuc, false, sym, subst, leb, Bool-cases, All, inr, inl, ◌∷◌, ◌&&◌, Bool,
  length, not, leb_ℤ, pos_part, keep, ◌≤◌, ◌≡◌, List, ℤ, ℕ, Option, pos, refl, true, [], arith,
}
use ledgerlock.Errors.{
  ok_injective, overflow_error, on_ok, on_passed, raise_if, validation_error, Result, ◌>>◌, ok,
  ◌>>=◌,
}

pub record PageMeta : Type 0 where
  pub limit : ℤ
  pub offset : ℤ
  pub returned : ℕ

pub record AccountListResponse : Type 0 where
  pub accounts : List Account
  pub page : PageMeta

-- `ge=1, le=MAX_PAGE_SIZE` and `ge=0`
abbrev pub is_page : ℤ → ℤ → Bool
is_page limit offset = is_between 1 max_page_size limit && leb_ℤ (pos 0) offset

module _ ⦃m : Mongo⦄ where
  -- The body of `list_accounts`.
  unfoldable pub list_page : ℤ → ℤ → AuthenticatedUser → Database → Result AccountListResponse
  list_page limit offset caller db = do
    documents ← list_accounts_for_owner caller.id (pos_part limit) (pos_part offset) db
    ok record {
      accounts = documents;
      page = record { limit = limit; offset = offset; returned = length documents };
    }

  -- `list_accounts`, with `limit` and `offset` as the query gives them.
  unfoldable pub list_accounts :
      Option ℤ → Option ℤ → AuthenticatedUser → Database → Result AccountListResponse
  unfolding list_page
  list_accounts given_limit given_offset caller db = do
    let limit = or_default given_limit (pos default_page_size)
    let offset = or_default given_offset (pos 0)
    raise_if (not (is_between 1 max_page_size limit)) validation_error
    raise_if (not (leb_ℤ (pos 0) offset)) validation_error
    list_page limit offset caller db

  -- `read_reconciliation`: any authenticated caller gets the report as it is.
  unfoldable pub read_reconciliation : AuthenticatedUser → Database → Time → ReconciliationReport
  read_reconciliation caller snapshot now = reconcile snapshot now

All-kept {ℓ} : {A : Type ℓ} (p : A → Bool) (l : List A) → All (λ x. p x ≡ true) (keep p l)
unfolding keep
All-kept p [] = tt
All-kept p (x ∷ l) = elim (Bool-cases (p x)) [
  | inl y ↦ rw y (y, All-kept p l)
  | inr n ↦ rw n (All-kept p l)
]

bounded : (limit : ℕ) → bounded_limit limit ≤ max_page_size
bounded limit = omega arith

-- The bounds of the query leave nothing to the bounds of the service.
bounded_same :
    (limit : ℤ)
    → not (is_between 1 max_page_size limit) ≡ false
    → bounded_limit (pos_part limit) ≡ pos_part limit
bounded_same (pos n) h = ground arith
bounded_same (negsuc n) h = ground arith

-- A page of a list: `limit` accounts from the offset on, of an arrangement of the list by age.
abbrev pub IsPage : ℕ → ℕ → List Account → List Account → Type 0
IsPage limit offset all page =
    (s : List Account) × Ascending (λ (a : Account). a.created_at) s
    × SameMembers s all
    × (page ≡ take limit (drop offset s))

module _ ⦃m : Mongo⦄ where
  IsPage-IsPage :
      (mine : Account → Bool) (limit offset : ℕ) (db : Database)
      → bounded_limit limit ≡ limit
      → IsPage limit offset (keep mine db.accounts) (
          m.find_page
            (λ (a : Account). a.created_at)
            (bounded_limit limit)
            offset
            (m.find mine db.accounts))
  IsPage-IsPage mine limit offset db within =
      let key = λ (a : Account). a.created_at in
      let (s, ordered, same, page) =
        m.find_page_sorted key (bounded_limit limit) offset (m.find mine db.accounts) in
      (
        s,
        ordered,
        subst (SameMembers s) (m.find_keep mine db.accounts) same,
        page ∙ ap (λ (n : ℕ). take n (drop offset s)) within,
      )

  -- A page that is served has at most 200 accounts, all of them the caller's, the oldest first, and it
  -- counts them. It is the part that the query asks for, 50 from the first where it does not say, of
  -- all accounts of the caller in order of creation.
  pub list_accounts-Ascending :
      (limit offset : Option ℤ) (caller : AuthenticatedUser) (db : Database)
      (r : AccountListResponse)
      → list_accounts limit offset caller db ≡ ok r
      → All (λ a. is_owner caller.id a ≡ true) r.accounts
        × Ascending (λ (a : Account). a.created_at) r.accounts
        × (length r.accounts ≤ max_page_size)
        × (r.page.returned ≡ length r.accounts)
        × IsPage
            (pos_part (or_default limit (pos 50)))
            (pos_part (or_default offset (pos 0)))
            (keep (is_owner caller.id) db.accounts)
            r.accounts
  unfolding list_accounts list_accounts_for_owner
  list_accounts-Ascending limit offset caller db r h =
      let size = pos_part (or_default limit (pos default_page_size)) in
      let skip = pos_part (or_default offset (pos 0)) in
      let key = λ (a : Account). a.created_at in
      let mine = m.find (is_owner caller.id) db.accounts in
      on_passed (not (is_between 1 max_page_size (or_default limit (pos default_page_size))))
        validation_error _ h
        λ within h1.
          on_passed (not (leb_ℤ (pos 0) (or_default offset (pos 0)))) validation_error _ h1 λ _ h2.
            on_ok (list_accounts_for_owner caller.id size skip db) _ h2 λ documents listed done.
              on_passed (leb bson_limit skip) overflow_error _ listed λ _ page.
                subst
                  (λ (x : AccountListResponse).
                    All (λ a. is_owner caller.id a ≡ true) x.accounts
                    × Ascending key x.accounts
                    × (length x.accounts ≤ max_page_size)
                    × (x.page.returned ≡ length x.accounts)
                    × IsPage size skip (keep (is_owner caller.id) db.accounts) x.accounts)
                  (ok_injective done)
                  (subst
                    (λ (l : List Account).
                      All (λ a. is_owner caller.id a ≡ true) l
                      × Ascending key l
                      × (length l ≤ max_page_size)
                      × (length l ≡ length l)
                      × IsPage size skip (keep (is_owner caller.id) db.accounts) l)
                    (ok_injective page)
                    (
                      page_All key (is_owner caller.id) (bounded_limit size) skip mine (
                          subst (All (λ a. is_owner caller.id a ≡ true))
                            (sym (m.find_keep (is_owner caller.id) db.accounts))
                            (All-kept (is_owner caller.id) db.accounts)),
                      page-Ascending key (bounded_limit size) skip mine,
                      omega (arith, page_length key (bounded_limit size) skip mine, bounded size),
                      refl,
                      IsPage-IsPage (is_owner caller.id) size skip db
                          (bounded_same (or_default limit (pos default_page_size)) within),
                    ))
