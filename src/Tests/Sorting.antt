-- ===== src/Tests/Sorting.antt =====
-- A sort for the server of the tests.
use ledgerlock.Mongo.{Ascending, SameMembers}
use ledgerlock.Base.{
  All, All-map_pred, keep, length, leb, if◌then◌else◌, Bool, Bool-cases, ◌≡◌, ◌≤◌, ◌∙◌, List, ℕ,
  arith, refl, inl, inr, [], ◌∷◌,
}

module _ {A : Type 0} (key : A → ℕ) where
  unfoldable pub inserted : A → List A → List A
  inserted x [] = x ∷ []
  inserted x (y ∷ l) = if leb (key x) (key y) then x ∷ y ∷ l else y ∷ inserted x l

  unfoldable pub sorted : List A → List A
  sorted [] = []
  sorted (x ∷ l) = inserted x (sorted l)

  inserted-All : (P : A → Type 0) (x : A) (l : List A) → P x → All P l → All P (inserted x l)
  unfolding inserted
  inserted-All P x [] here h = (here, tt)
  inserted-All P x (y ∷ l) here h = elim (Bool-cases (leb (key x) (key y))) [
    | inl before ↦ rw before (here, h)
    | inr after ↦ rw after (h.0, inserted-All P x l here h.1)
  ]

  before_rest :
      (x y : A) (l : List A)
      → key x ≤ key y
      → All (λ z. key y ≤ key z) l
      → All (λ z. key x ≤ key z) l
  before_rest x y l order h =
      All-map_pred (λ z. key y ≤ key z) (λ z. key x ≤ key z)
        (λ z after. omega (arith, order, after)) l h

  inserted-Ascending : (x : A) (l : List A) → Ascending key l → Ascending key (inserted x l)
  unfolding inserted
  inserted-Ascending x [] h = (tt, tt)
  inserted-Ascending x (y ∷ l) h = elim (Bool-cases (leb (key x) (key y))) [
    | inl before ↦
        let order : key x ≤ key y = ground arith in
        rw before ((order, before_rest x y l order h.0), h)
    | inr after ↦
        rw after
          (inserted-All (λ z. key y ≤ key z) x l (ground arith) h.0, inserted-Ascending x l h.1)
  ]

  inserted_count :
      (p : A → Bool) (x : A) (l : List A) → length (keep p (inserted x l)) ≡ length (keep p (x ∷ l))
  unfolding inserted keep
  inserted_count p x [] = refl
  inserted_count p x (y ∷ l) = ground (arith, inserted_count p x l)

  kept_more :
      (p : A → Bool) (x : A) (l r : List A)
      → length (keep p l) ≡ length (keep p r)
      → length (keep p (x ∷ l)) ≡ length (keep p (x ∷ r))
  unfolding keep
  kept_more p x l r h = ground arith

  pub sorted-Ascending : (l : List A) → Ascending key (sorted l)
  unfolding sorted
  sorted-Ascending [] = tt
  sorted-Ascending (x ∷ l) = inserted-Ascending x (sorted l) (sorted-Ascending l)

  pub sorted-SameMembers : (l : List A) → SameMembers (sorted l) l
  unfolding sorted
  sorted-SameMembers [] p = refl
  sorted-SameMembers (x ∷ l) p =
      inserted_count p x (sorted l) ∙ kept_more p x (sorted l) l (sorted-SameMembers l p)
