-- ===== src/Base/Slices.antt =====
-- Parts of a list, one after the other.
use Prim.Native.Nat.{ℕ, zero, suc, ◌+◌, ◌≤◌}
use mathlib.Core.Path.{◌≡◌, refl, ap, ◌∙◌}
use mathlib.Core.List.{List, [], ◌∷◌, ◌++◌}
use native.Mathlib.Omega.{arith}
use native.Mathlib.Numerals.{unary_clauses}
use ledgerlock.Base.Lists.{length, take, drop}

zero_left : (k : ℕ) → k ≡ 0 + k
zero_left k = omega arith

suc_left : (n k : ℕ) → suc (n + k) ≡ suc n + k
suc_left n k = omega arith

pub drop-drop {ℓ} : {A : Type ℓ} (n k : ℕ) (l : List A) → drop k (drop n l) ≡ drop (n + k) l
drop-drop zero k l = ap (λ (j : ℕ). drop j l) (zero_left k)
drop-drop (suc n) zero [] = simp unary_clauses refl
drop-drop (suc n) (suc k) [] = simp unary_clauses refl
drop-drop (suc n) k (x ∷ l) = drop-drop n k l ∙ ap (λ (j : ℕ). drop j (x ∷ l)) (suc_left n k)

pub take-add {ℓ} :
    {A : Type ℓ} (n k : ℕ) (l : List A) → take n l ++ take k (drop n l) ≡ take (n + k) l
take-add zero k l = ap (λ (j : ℕ). take j l) (zero_left k)
take-add (suc n) zero [] = simp unary_clauses refl
take-add (suc n) (suc k) [] = simp unary_clauses refl
take-add (suc n) k (x ∷ l) =
    ap (λ r. x ∷ r) (take-add n k l) ∙ ap (λ (j : ℕ). take j (x ∷ l)) (suc_left n k)

pub take_all {ℓ} : {A : Type ℓ} (n : ℕ) (l : List A) → length l ≤ n → take n l ≡ l
take_all zero [] h = refl
take_all zero (x ∷ l) h = absurd (omega (arith, h))
take_all (suc n) [] h = refl
take_all (suc n) (x ∷ l) h = ap (λ r. x ∷ r) (take_all n l (omega (arith, h)))
