-- ===== src/Config/Distinct.antt =====
-- The keys of a list, each once.
use ledgerlock.Mongo.{distinct}
use ledgerlock.Base.{
  AllDistinct, refl, [], ◌∷◌, inr, inl, not, arith, true, Bool-cases, false, ◌≡◌, same_text, Text,
  all, List, keep, Bool, any,
}

any-keep_not :
    (k : Text) (p : Text → Bool) (l : List Text)
    → ((j : Text) → p j ≡ true → same_text k j ≡ false)
    → any (same_text k) (keep p l) ≡ false
unfolding any keep
any-keep_not k p [] f = refl
any-keep_not k p (j ∷ l) f = ground (arith, f j, any-keep_not k p l f)

any-keep-false :
    (k : Text) (p : Text → Bool) (l : List Text)
    → any (same_text k) l ≡ false
    → any (same_text k) (keep p l) ≡ false
unfolding any keep
any-keep-false k p [] h = refl
any-keep-false k p (j ∷ l) h = ground (arith, any-keep-false k p l)

AllDistinct-keep : (p : Text → Bool) (l : List Text) → AllDistinct l → AllDistinct (keep p l)
unfolding keep
AllDistinct-keep p [] h = tt
AllDistinct-keep p (k ∷ l) h = elim (Bool-cases (p k)) [
  | inl y ↦ rw y (any-keep-false k p l h.0, AllDistinct-keep p l h.1)
  | inr n ↦ rw n (AllDistinct-keep p l h.1)
]

pub AllDistinct-distinct : (l : List Text) → AllDistinct (distinct same_text l)
unfolding distinct
AllDistinct-distinct [] = tt
AllDistinct-distinct (k ∷ l) = (
  any-keep_not k _ (distinct same_text l) (λ j h. ground arith),
  AllDistinct-keep _ (distinct same_text l) (AllDistinct-distinct l),
)

all-keep : (p q : Text → Bool) (l : List Text) → all p l ≡ true → all p (keep q l) ≡ true
unfolding all keep
all-keep p q [] h = refl
all-keep p q (k ∷ l) h = ground (arith, all-keep p q l)

pub all-distinct :
    (p : Text → Bool) (l : List Text) → all p l ≡ true → all p (distinct same_text l) ≡ true
unfolding all distinct
all-distinct p [] h = refl
all-distinct p (k ∷ l) h =
    ground (arith, all-distinct p l, all-keep p (λ j. not (same_text k j)) (distinct same_text l))
