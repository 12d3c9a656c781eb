-- ===== src/Schema/Lookup.antt =====
-- Names in a catalog.
use ledgerlock.Schema.{replace_text, lookup_text}
use ledgerlock.Base.{
  eq_of_same_text, subst, Bool-cases, if◌then◌else◌, same_text, ◌≡◌, ◌++◌, List, is_some, inr, inl,
  arith, refl, false, true, some, none, ◌∷◌, [], Text,
}

module _ {A : Type 0} where
  pub lookup-append :
      (name key : Text) (a : A) (l : List (Text × A))
      → lookup_text name (l ++ (key, a) ∷ []) ≡ (
          if is_some (lookup_text name l)
          then lookup_text name l
          else if same_text name key
          then some a
          else none)
  unfolding lookup_text
  lookup-append name key a [] = refl
  lookup-append name key a ((k, b) ∷ l) = ground (arith, lookup-append name key a l)

  pub lookup-replace_self :
      (name : Text) (a : A) (l : List (Text × A))
      → is_some (lookup_text name l) ≡ true
      → lookup_text name (replace_text name a l) ≡ some a
  unfolding lookup_text replace_text
  lookup-replace_self name a [] h = absurd (cc)
  lookup-replace_self name a ((k, b) ∷ l) h = ground (arith, lookup-replace_self name a l)

  pub lookup-replace_other :
      (name key : Text) (a : A) (l : List (Text × A))
      → same_text name key ≡ false
      → lookup_text name (replace_text key a l) ≡ lookup_text name l
  unfolding lookup_text replace_text
  lookup-replace_other name key a [] h = refl
  lookup-replace_other name key a ((k, b) ∷ l) h = elim (Bool-cases (same_text key k)) [
    | inl y ↦
        let other = subst (λ x. same_text name x ≡ false) (eq_of_same_text key k y) h in
        rw (y, lookup_text, other)
    | inr n ↦ rw n (ground (arith, lookup-replace_other name key a l h))
  ]
