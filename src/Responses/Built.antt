-- ===== src/Responses/Built.antt =====
-- When a response model accepts what it is built of.
use ledgerlock.Security.{Crypto}
use ledgerlock.Balance.{ComputedBalance}
use ledgerlock.Responses.{
  AccountPublic, account_public, TransactionPublic, transaction_public, BalanceResponse,
  to_response, is_balance_response, each,
}
use ledgerlock.Models.{Account, Transaction, ObjectId, Time, is_currency_code}
use ledgerlock.Errors.{Result, Exc, ok, raise_if, ◌>>◌}
use ledgerlock.Base.{Bool, Text, ◌≡◌, refl, ap, not, true, false, List, [], ◌∷◌, All}

pub passed :
    {A : Type 0} (test : Bool) (e : Exc) (a : A)
    → test ≡ false
    → (b : A) × ((raise_if test e >> ok a) ≡ ok b)
passed true e a h = absurd (cc)
passed false e a h = (a, refl)

pub each_built :
    {A B : Type 0} (f : A → Result B) (l : List A)
    → All (λ a. (b : B) × (f a ≡ ok b)) l
    → (bs : List B) × (each f l ≡ ok bs)
unfolding each
each_built f [] h = ([], refl)
each_built f (a ∷ l) h =
    let (b, here) = h.0 in let (bs, there) = each_built f l h.1 in (b ∷ bs, rw (here, there) refl)

module _ ⦃k : Crypto⦄ where
  pub account_public_built :
      (a : Account)
      → is_currency_code a.currency ≡ true
      → (b : AccountPublic) × (account_public a ≡ ok b)
  unfolding account_public
  account_public_built a code = passed _ _ _ (ap not code)

  pub transaction_public_built :
      (t : Transaction)
      → is_currency_code t.currency ≡ true
      → (b : TransactionPublic) × (transaction_public t ≡ ok b)
  unfolding transaction_public
  transaction_public_built t code = passed _ _ _ (ap not code)

  pub to_response_built :
      (b : ComputedBalance) (i : ObjectId) (currency : Text) (now : Time)
      → is_balance_response currency b ≡ true
      → (r : BalanceResponse) × (to_response b i currency now ≡ ok r)
  unfolding to_response
  to_response_built b i currency now fits = passed _ _ _ (ap not fits)
