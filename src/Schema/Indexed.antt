-- ===== src/Schema/Indexed.antt =====
-- Creating the indexes of a list one after the other.
use ledgerlock.Errors.{on_ok, ok_injective, ok}
use ledgerlock.Schema.{In, create_indexes, Index, Admin, Catalog}
use ledgerlock.Base.{All, ap, ◌∙◌, sym, subst, ◌≡◌, ◌++◌, List, inr, inl, refl, ◌∷◌, []}

-- Every index of the list is there.
In-append_left : {A : Type 0} (a : A) (l r : List A) → In a l → In a (l ++ r)
In-append_left a [] r h = elim h [ ]
In-append_left a (b ∷ l) r (inl e) = inl e
In-append_left a (b ∷ l) r (inr h) = inr (In-append_left a l r h)

In-append_last : {A : Type 0} (a : A) (l : List A) → In a (l ++ a ∷ [])
In-append_last a [] = inl refl
In-append_last a (b ∷ l) = inr (In-append_last a l)

module _ (admin : Admin) where
  create_index-keeps :
      (i j : Index) (cat cat' : Catalog)
      → admin.create_index i cat ≡ ok cat'
      → In j cat.indexes
      → In j cat'.indexes
  create_index-keeps i j cat cat' h there = elim (admin.create_index_adds i cat cat' h) [
    | inl (_, same) ↦ subst (λ (c : Catalog). In j c.indexes) (sym same) there
    | inr more ↦
        subst (λ (c : Catalog). In j c.indexes) (sym more)
          (In-append_left j cat.indexes (i ∷ []) there)
  ]

  create_index-In :
      (i : Index) (cat cat' : Catalog)
      → admin.create_index i cat ≡ ok cat'
      → In i cat'.indexes × (cat'.collections ≡ cat.collections)
  create_index-In i cat cat' h = elim (admin.create_index_adds i cat cat' h) [
    | inl (there, same) ↦ (
      subst (λ (c : Catalog). In i c.indexes) (sym same) there,
      ap (λ (c : Catalog). c.collections) same,
    )
    | inr more ↦ (
      subst (λ (c : Catalog). In i c.indexes) (sym more) (In-append_last i cat.indexes),
      ap (λ (c : Catalog). c.collections) more,
    )
  ]

  create_indexes-keeps :
      (l : List Index) (j : Index) (cat cat' : Catalog)
      → create_indexes admin l cat ≡ ok cat'
      → In j cat.indexes
      → In j cat'.indexes
  unfolding create_indexes
  create_indexes-keeps [] j cat cat' h there =
      subst (λ (c : Catalog). In j c.indexes) (ok_injective h) there
  create_indexes-keeps (i ∷ l) j cat cat' h there =
      on_ok (admin.create_index i cat) _ h λ next e rest.
        create_indexes-keeps l j next cat' rest (create_index-keeps i j cat next e there)

  pub create_indexes-In :
      (l : List Index) (cat cat' : Catalog)
      → create_indexes admin l cat ≡ ok cat'
      → All (λ i. In i cat'.indexes) l × (cat'.collections ≡ cat.collections)
  unfolding create_indexes
  create_indexes-In [] cat cat' h = (tt, ap (λ (c : Catalog). c.collections) (sym (ok_injective h)))
  create_indexes-In (i ∷ l) cat cat' h = on_ok (admin.create_index i cat) _ h λ next e rest.
      let (there, same) = create_index-In i cat next e in
      let (more, still) = create_indexes-In l next cat' rest in
      ((create_indexes-keeps l i next cat' rest there, more), still ∙ same)
