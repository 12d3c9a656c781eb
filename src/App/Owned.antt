-- ===== src/App/Owned.antt =====
-- The account of a caller is a USER account, and its balance is at zero or above in every version.
use ledgerlock.Database.Laws.{has_id}
use ledgerlock.App.Reads.{found_All, account_some}
use ledgerlock.Balance.Laws.{balance_at}
use ledgerlock.Database.{Database, account_by_id}
use ledgerlock.Accounts.{get_owned_account_or_raise}
use ledgerlock.System.{Elem, Reach, State}
use ledgerlock.Mongo.{Mongo}
use ledgerlock.Models.{is_user, Account, ObjectId}
use ledgerlock.Errors.{ok}
use ledgerlock.Base.{
  subst, eq_of_==, ap, first_passes, &&_parts, some_eq, Option-cases, ◌∙◌, ◌&&◌, sym, ◌==◌,
  Bool-cases, length, ◌≤◌, List, Bool, ◌≤ℤ◌, same_option, ◌≡◌, keep, Option, first, pos, inr, inl,
  arith, true, some, none, ◌∷◌, [],
}
use ledgerlock.System.Typed.{HasOwner, Typed}
use ledgerlock.System.Invariant.{Reach-Inv}
use ledgerlock.System.Sound.{Sound}

module _ {A : Type 0} where
  first_kept :
      (p q : A → Bool) (sub : (x : A) → p x ≡ true → q x ≡ true) (l : List A) {a : A}
      → first p l ≡ some a
      → 1 ≤ length (keep q l)
  unfolding first keep
  first_kept p q sub [] h = absurd (cc)
  first_kept p q sub (x ∷ l) {a} h = elim (Bool-cases (q x)) [
    | inl y ↦ rw y (omega arith)
    | inr n ↦ elim (Bool-cases (p x)) [
      | inl z ↦ absurd (cc (sym (sub x z) ∙ n))
      | inr z ↦ rw n (first_kept p q sub l {a = a} (rw z at h))
    ]
  ]

  first_unique :
      (p q : A → Bool) (sub : (x : A) → p x ≡ true → q x ≡ true) (l : List A) {a : A}
      → length (keep q l) ≤ 1
      → first p l ≡ some a
      → first q l ≡ some a
  unfolding first keep
  first_unique p q sub [] few h = absurd (cc)
  first_unique p q sub (x ∷ l) {a} few h = elim (Bool-cases (p x)) [
    | inl y ↦ rw (sub x y) (rw y at h)
    | inr n ↦ elim (Bool-cases (q x)) [
      | inl y ↦ absurd (omega (arith, rw y at few, first_kept p q sub l {a = a} (rw n at h)))
      | inr z ↦ rw z (first_unique p q sub l {a = a} (rw z at few) (rw n at h))
    ]
  ]

same_owner : (o : Option ObjectId) (i : ObjectId) → same_option o (some i) ≡ true → ¬ (o ≡ none)
same_owner none i h = absurd (cc)
same_owner (some j) i h = λ e. absurd (cc)

module _ ⦃m : Mongo⦄ where
  -- The account that a caller reads is a USER account, also where it is looked for by its id alone.
  pub owned_user :
      (i owner : ObjectId) (db : Database) (a : Account)
      → Typed db
      → Sound db
      → get_owned_account_or_raise i owner db ≡ ok a
      → (is_user a.account_type ≡ true) × (account_by_id a.id db ≡ some a)
  unfolding get_owned_account_or_raise account_by_id
  owned_user i owner db a typed sound h =
      let mine = λ (x : Account). x.id == i && same_option x.owner_id (some owner) in
      let found = account_some _ a h in
      let there : first mine db.accounts ≡ some a =
        sym (m.find_one_first mine db.accounts) ∙ found in
      let (is_i, is_owned) = &&_parts (a.id == i) _ (first_passes mine db.accounts there) in
      let same_id : i ≡ a.id = sym (eq_of_== _ _ is_i) in
      (
        elim (found_All HasOwner mine db.accounts a found typed.owners) [
          | inl ownerless ↦ absurd (same_owner a.owner_id owner is_owned ownerless)
          | inr of_user ↦ of_user
        ],
        m.find_one_first _ db.accounts
            ∙ subst (λ (j : ObjectId). first (has_id j) db.accounts ≡ some a) same_id
                (first_unique mine (has_id i) (λ x y. (&&_parts (x.id == i) _ y).0) db.accounts
                  (sound.unique i) there),
      )

  -- The balance of that account is at zero or above in every version, before it was opened too.
  pub owned_nonneg :
      {s : State} (i : ObjectId) (seen later : Database) (a : Account)
      → Reach s
      → Elem seen (s.current ∷ s.history)
      → Elem later (s.current ∷ s.history)
      → is_user a.account_type ≡ true
      → account_by_id i seen ≡ some a
      → Sound later
      → pos 0 ≤ℤ balance_at i later.ledger_entries
  owned_nonneg {s} i seen later a reached old old' of_user found sound =
      let inv = Reach-Inv reached in
      let (b, now_b, kept_b) = (inv.grows seen old).kept i a found in
      elim (Option-cases (account_by_id i later)) [
        | inl missing ↦ rw (sound.unborn i missing) (omega arith)
        | inr (c, there) ↦
            let (d, now_d, kept_d) = (inv.grows later old').kept i c there in
            let same : b ≡ d = some_eq (sym now_b ∙ now_d) in
            sound.nonneg i c there (
              ap is_user (
                kept_d.same_type
                ∙ ap (λ (x : Account). x.account_type) (sym same)
                ∙ sym kept_b.same_type)
              ∙ of_user)
      ]
