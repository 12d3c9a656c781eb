-- ===== src/Base/Search.antt =====
-- How the searches over a list bear on one another.
use Prim.Native.Nat.{◌≤◌}
use mathlib.Core.Path.{◌≡◌, refl, ap, subst}
use mathlib.Core.Logic.{◌⊎◌, inl, inr}
use mathlib.Core.Bool.{Bool, true, false}
use mathlib.Core.List.{List, [], ◌∷◌, ◌++◌, map, append-nil}
use mathlib.Core.Option.{none, some}
use native.Mathlib.Omega.{arith}
use ledgerlock.Base.Tests.{Bool-cases, some_eq}
use ledgerlock.Base.Lists.{length, first, any, all, keep, update_first, All, keep-append}

abbrev pub is_empty {ℓ} : {A : Type ℓ} → List A → Bool
is_empty [] = true
is_empty (x ∷ l) = false

module _ {ℓ} {A : Type ℓ} where
  pub any_weaken :
      (p q : A → Bool)
      → ((x : A) → p x ≡ false → q x ≡ false)
      → (l : List A) → any p l ≡ false
      → any q l ≡ false
  unfolding any
  any_weaken p q f [] h = refl
  any_weaken p q f (x ∷ l) h = ground (arith, f x, any_weaken p q f l)

  pub keep_of_any : (p : A → Bool) (l : List A) → any p l ≡ false → keep p l ≡ []
  unfolding any keep
  keep_of_any p [] h = refl
  keep_of_any p (x ∷ l) h = ground (arith, keep_of_any p l)

  pub keep_ne_nil : (p : A → Bool) (l : List A) → any p l ≡ true → is_empty (keep p l) ≡ false
  unfolding any keep
  keep_ne_nil p [] h = ground arith
  keep_ne_nil p (x ∷ l) h = ground (arith, keep_ne_nil p l)

  pub keep-true : (l : List A) → keep (λ _. true) l ≡ l
  unfolding keep
  keep-true [] = refl
  keep-true (x ∷ l) = ap (λ (r : List A). x ∷ r) (keep-true l)

  pub keep-false : (l : List A) → keep (λ _. false) l ≡ []
  unfolding keep
  keep-false [] = refl
  keep-false (x ∷ l) = keep-false l

  pub All-keep {κ} : (P : A → Type κ) (p : A → Bool) (l : List A) → All P l → All P (keep p l)
  unfolding keep
  All-keep P p [] h = tt
  All-keep P p (x ∷ l) h = elim (Bool-cases (p x)) [
    | inl y ↦ rw y (h.0, All-keep P p l h.1)
    | inr n ↦ rw n (All-keep P p l h.1)
  ]

  -- Nothing is kept where every element fails the test.
  pub keep_none : (p : A → Bool) (l : List A) → All (λ x. p x ≡ false) l → keep p l ≡ []
  unfolding keep
  keep_none p [] h = refl
  keep_none p (x ∷ l) h = ground (arith, keep_none p l h.1)

  pub all_of_All : (p : A → Bool) (l : List A) → All (λ x. p x ≡ true) l → all p l ≡ true
  unfolding all
  all_of_All p [] h = refl
  all_of_All p (x ∷ l) h = ground (arith, all_of_All p l h.1)

  pub All_of_all : (p : A → Bool) (l : List A) → all p l ≡ true → All (λ x. p x ≡ true) l
  unfolding all
  All_of_all p [] h = tt
  All_of_all p (x ∷ l) h = elim (Bool-cases (p x)) [
    | inl y ↦ (y, All_of_all p l (rw y at h))
    | inr n ↦ absurd (cc (rw n at h))
  ]

  -- At most one element passes the test: the first that does is the only one.
  pub keep_single :
      (p : A → Bool) (l : List A)
      → length (keep p l) ≤ 1
      → ((first p l ≡ none) × (keep p l ≡ []))
        ⊎ ((a : A) × (first p l ≡ some a) × (keep p l ≡ a ∷ []))
  unfolding first keep
  keep_single p [] h = inl (refl, refl)
  keep_single p (x ∷ l) h = elim (Bool-cases (p x)) [
    | inl y ↦ inr (x, rw y, rw y (ap (λ (r : List A). x ∷ r) (only (keep p l) (rw y at h))))
    | inr n ↦ rw n (keep_single p l (rw n at h))
  ]
    where
      only : (r : List A) → length (x ∷ r) ≤ 1 → r ≡ []
      only [] s = refl
      only (z ∷ r) s = absurd (omega (arith, s))

  pub length-keep-update_first :
      (p q : A → Bool) (f : A → A)
      → ((x : A) → p (f x) ≡ p x)
      → (l : List A) → length (keep p (update_first q f l)) ≡ length (keep p l)
  unfolding keep update_first
  length-keep-update_first p q f same [] = refl
  length-keep-update_first p q f same (x ∷ l) =
      ground (arith, same x, length-keep-update_first p q f same l)

  pub length-keep-insert :
      (p : A → Bool) (l : List A) (n : A)
      → (p n ≡ true → any p l ≡ false)
      → length (keep p l) ≤ 1
      → length (keep p (l ++ n ∷ [])) ≤ 1
  unfolding keep
  length-keep-insert p l n fresh h = elim (Bool-cases (p n)) [
    | inl y ↦ rw (keep-append p l (n ∷ []), keep_of_any p l (fresh y), y) (omega arith)
    | inr o ↦ rw (keep-append p l (n ∷ []), o, append-nil (keep p l)) h
  ]

module _ {ℓ κ} {A : Type ℓ} {B : Type κ} where
  pub All-map {ν} :
      (P : B → Type ν) (f : A → B) (l : List A) → All (λ a. P (f a)) l → All P (map f l)
  All-map P f [] h = tt
  All-map P f (x ∷ l) h = (h.0, All-map P f l h.1)

  pub All-mapped {ν} :
      (P : B → Type ν) (f : A → B) (l : List A) → All P (map f l) → All (λ a. P (f a)) l
  All-mapped P f [] h = tt
  All-mapped P f (x ∷ l) h = (h.0, All-mapped P f l h.1)

module _ {ℓ κ} {A : Type ℓ} where
  -- What holds of the elements that are kept and of those that are not holds of all.
  pub All-unkeep :
      (P : A → Type κ) (p : A → Bool)
      → ((x : A) → p x ≡ false → P x)
      → (l : List A) → All P (keep p l)
      → All P l
  unfolding keep
  All-unkeep P p f [] h = tt
  All-unkeep P p f (x ∷ l) h = elim (Bool-cases (p x)) [
    | inl y ↦ let k = rw y at h in (k.0, All-unkeep P p f l k.1)
    | inr n ↦ (f x n, All-unkeep P p f l (rw n at h))
  ]

  -- What holds of the elements that pass a test holds of the first that does.
  pub All-first :
      (P : A → Type κ) (p : A → Bool) (l : List A) {a : A}
      → first p l ≡ some a
      → All P (keep p l)
      → P a
  unfolding first keep
  All-first P p [] found h = absurd (cc)
  All-first P p (x ∷ l) found h = elim (Bool-cases (p x)) [
    | inl y ↦ let k = rw y at h in subst P (some_eq (rw y at found)) k.0
    | inr n ↦ All-first P p l (rw n at found) (rw n at h)
  ]
