-- ===== src/Mongo/Laws.antt =====
-- Groups over the whole input, and predicates on the rows of a group.
use ledgerlock.Mongo.{Mongo, distinct}
use ledgerlock.Base.{
  arith, All-mapped, All-unkeep, All-map, sym, not, keep-true, subst, All-keep, keep-false, keep,
  ◌∙◌, map, All, Bool, ◌≡◌, List, refl, true, ◌∷◌, [],
}

-- The row of `{"$group": {"_id": None, …}}`, if a document came in.
abbrev pub one_row : {A R : Type 0} → (List A → R) → List A → List R
one_row f [] = []
one_row f (x ∷ l) = f (x ∷ l) ∷ []

distinct_unit :
    {A R : Type 0} (f : List A → R) (docs l : List A)
    → docs ≡ l
    → map (λ (k : Unit {0}). f docs) (distinct (λ _ _. true) (map (λ _. tt) l)) ≡ one_row f l
unfolding distinct
distinct_unit f docs [] e = refl
distinct_unit f docs (x ∷ l) e =
    rw (keep-false (distinct (λ (_ _ : Unit {0}). true) (map (λ _. tt) l)), e)

All-distinct :
    {K : Type 0} (P : K → Type 0) (same : K → K → Bool) (l : List K)
    → All P l
    → All P (distinct same l)
unfolding distinct
All-distinct P same [] h = tt
All-distinct P same (k ∷ ks) h =
    (h.0, All-keep P (λ j. not (same k j)) (distinct same ks) (All-distinct P same ks h.1))

All-undistinct :
    {K : Type 0} (P : K → Type 0) (same : K → K → Bool)
    → ((j k : K) → same j k ≡ true → j ≡ k)
    → (l : List K) → All P (distinct same l)
    → All P l
unfolding distinct
All-undistinct P same eq_of_same [] h = tt
All-undistinct P same eq_of_same (k ∷ ks) h = (
  h.0,
  All-undistinct P same eq_of_same ks (
      All-unkeep P (λ j. not (same k j)) (λ j e. subst P (eq_of_same k j (ground arith)) h.0)
        (distinct same ks) h.1),
)

module _ ⦃m : Mongo⦄ where
  pub group_null :
      {A R : Type 0} (f : List A → R) (l : List A)
      → m.group (λ (_ _ : Unit {0}). true) (λ _. tt) (λ _ docs. f docs) l ≡ one_row f l
  group_null f l =
      m.group_rows (λ _ _. true) (λ _. tt) (λ _ docs. f docs) l
      ∙ distinct_unit f (keep (λ _. true) l) l (keep-true l)

  -- What holds of the row of every document's key holds of every row.
  pub All-group :
      {A K R : Type 0} (P : R → Type 0) (same : K → K → Bool) (key : A → K) (row : K → List A → R)
      (l : List A)
      → All (λ a. P (row (key a) (keep (λ b. same (key a) (key b)) l))) l
      → All P (m.group same key row l)
  All-group {A} {K} P same key row l h = subst (All P) (sym (m.group_rows same key row l)) (
      All-map P (λ (k : K). row k (keep (λ b. same k (key b)) l)) (distinct same (map key l))
        (All-distinct (λ k. P (row k (keep (λ b. same k (key b)) l))) same (map key l)
          (All-map (λ k. P (row k (keep (λ b. same k (key b)) l))) key l h)))

  -- What holds of every row holds of the row of every document's key.
  pub All-group_rows :
      {A K R : Type 0} (P : R → Type 0) (same : K → K → Bool) (key : A → K) (row : K → List A → R)
      (l : List A)
      → ((j k : K) → same j k ≡ true → j ≡ k)
      → All P (m.group same key row l)
      → All (λ a. P (row (key a) (keep (λ b. same (key a) (key b)) l))) l
  All-group_rows {A} {K} P same key row l eq_of_same h =
      All-mapped (λ (k : K). P (row k (keep (λ b. same k (key b)) l))) key l
        (All-undistinct (λ k. P (row k (keep (λ b. same k (key b)) l))) same eq_of_same (map key l)
          (All-mapped P (λ (k : K). row k (keep (λ b. same k (key b)) l))
            (distinct same (map key l)) (subst (All P) (m.group_rows same key row l) h)))
