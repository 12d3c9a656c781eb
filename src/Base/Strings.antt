-- ===== src/Base/Strings.antt =====
-- Python's `str` as its code points, so that patterns and `strip` walk it.
use Prim.Native.Char.{code}
use Prim.Native.Nat.{ℕ}
use Prim.Native.String.{String}
use mathlib.Core.Path.{◌≡◌, refl}
use mathlib.Core.Bool.{Bool, true, false, ◌&&◌}
use mathlib.Core.List.{List, [], ◌∷◌}
use native.Mathlib.Omega.{arith}
use ledgerlock.Base.Tests.{◌==◌}
use ledgerlock.Base.Lists.{any}

abbrev pub Text : Type 0
Text = List ℕ

abbrev pub codes : String → Text
codes String.[] = []
codes (String.◌∷◌ c s) = code c ∷ codes s

-- `a == b` on texts.
unfoldable pub same_text : Text → Text → Bool
same_text [] [] = true
same_text (c ∷ a) (d ∷ b) = c == d && same_text a b
same_text _ _ = false

pub same_text_refl : (a : Text) → same_text a a ≡ true
unfolding same_text
same_text_refl [] = refl
same_text_refl (c ∷ a) = ground (arith, same_text_refl a)

pub eq_of_same_text : (a b : Text) → same_text a b ≡ true → a ≡ b
unfolding same_text
eq_of_same_text [] [] h = refl
eq_of_same_text [] (d ∷ b) h = ground arith
eq_of_same_text (c ∷ a) [] h = ground arith
eq_of_same_text (c ∷ a) (d ∷ b) h = ground (arith, eq_of_same_text a b)

pub same_text_comm : (a b : Text) → same_text a b ≡ same_text b a
unfolding same_text
same_text_comm [] [] = refl
same_text_comm [] (d ∷ b) = refl
same_text_comm (c ∷ a) [] = refl
same_text_comm (c ∷ a) (d ∷ b) = ground (arith, same_text_comm a b)

-- No text is the same as an earlier one.
abbrev pub AllDistinct : List Text → Type 0
AllDistinct [] = Unit
AllDistinct (k ∷ ks) = (any (same_text k) ks ≡ false) × AllDistinct ks
