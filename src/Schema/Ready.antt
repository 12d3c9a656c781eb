-- ===== src/Schema/Ready.antt =====
-- What a successful initialisation leaves.
use ledgerlock.Schema.Indexed.{create_indexes-In}
use ledgerlock.Schema.Lookup.{lookup-replace_self, lookup-replace_other, lookup-append}
use ledgerlock.Errors.{Exc, Result, err, ok}
use ledgerlock.Schema.{
  ensure_indexes, ensure_collections_and_validators, required_indexes, all_collections,
  as_runtime_error, In, create_indexes, initialise_database, ensure_each_collection,
  ensure_collection, modified, Admin, collection_validator, lookup_text, Catalog, Validator,
}
use ledgerlock.Base.{
  same_text_comm, map, AllDistinct, All, same_text_refl, ap, ◌∙◌, sym, Option, subst, Bool-cases,
  if◌then◌else◌, same_text, any, ◌≡◌, List, is_some, inr, inl, arith, refl, false, true, some, none,
  ◌∷◌, [], Text,
}

-- A collection is there, with the validator that the program has for it.
abbrev pub IsReady : Text → Option (Option Validator) → Type 0
IsReady name found =
    (is_some found ≡ true)
    × ((v : Validator) → collection_validator name ≡ some v → found ≡ some (some v))

-- What was listed is still there, and what came since is from a worker of the same program.
abbrev pub IsCurrent : List Text → Text → Option (Option Validator) → Type 0
IsCurrent existing name found =
    (any (same_text name) existing ≡ true → is_some found ≡ true)
    × (any (same_text name) existing ≡ false
        → is_some found ≡ true
        → found ≡ some (collection_validator name))

abbrev found_in : Catalog → Text → Option (Option Validator)
found_in cat name = lookup_text name cat.collections

or_none : {A : Type 0} (o : Option A) → (if is_some o then o else none) ≡ o
or_none none = refl
or_none (some a) = refl

module _ (admin : Admin) (existing : List Text) where
  modified-IsReady :
      (o : Option Validator) (name : Text) (cat : Catalog)
      → collection_validator name ≡ o
      → is_some (found_in cat name) ≡ true
      → IsReady name (found_in (modified o admin name cat) name)
  modified-IsReady none name cat e h = (h, λ v k. absurd (cc (sym e ∙ k)))
  modified-IsReady (some w) name cat e h =
      let set = lookup-replace_self name (some w) cat.collections h in
      rw (admin.coll_mod_replaces name w cat, set)
        (refl, λ v k. ap (λ (x : Option Validator). some x) (sym e ∙ k))

  modified_other :
      (o : Option Validator) (name other : Text) (cat : Catalog)
      → same_text other name ≡ false
      → found_in (modified o admin name cat) other ≡ found_in cat other
  modified_other none name other cat h = refl
  modified_other (some w) name other cat h =
      rw (admin.coll_mod_replaces name w cat)
        (lookup-replace_other other name (some w) cat.collections h)

  step-IsReady :
      (name : Text) (cat : Catalog)
      → IsCurrent existing name (found_in cat name)
      → IsReady name (found_in (ensure_collection admin existing name cat) name)
  unfolding ensure_collection
  step-IsReady name cat current = elim (Bool-cases (any (same_text name) existing)) [
    | inl listed ↦
        rw listed (modified-IsReady (collection_validator name) name cat refl (current.0 listed))
    | inr new ↦
        rw (new, admin.create_collection_new name (collection_validator name) cat)
          (elim (Bool-cases (is_some (found_in cat name))) [
            | inl taken ↦
                rw taken
                  (taken, λ v k. current.1 new taken ∙ ap (λ (x : Option Validator). some x) k)
            | inr absent ↦
                rw
                  (
                    absent,
                    lookup-append name name (collection_validator name) cat.collections,
                    absent,
                    same_text_refl name,
                  )
                  (refl, λ v k. ap (λ (x : Option Validator). some x) k)
          ])
  ]

  step_other :
      (name other : Text) (cat : Catalog)
      → same_text other name ≡ false
      → found_in (ensure_collection admin existing name cat) other ≡ found_in cat other
  unfolding ensure_collection
  step_other name other cat h = elim (Bool-cases (any (same_text name) existing)) [
    | inl listed ↦ rw listed (modified_other (collection_validator name) name other cat h)
    | inr new ↦
        rw (new, admin.create_collection_new name (collection_validator name) cat)
          (elim (Bool-cases (is_some (found_in cat name))) [
            | inl taken ↦ rw taken
            | inr absent ↦
                rw (absent, lookup-append other name (collection_validator name) cat.collections, h)
                  (or_none (found_in cat other))
          ])
  ]

  rest_other :
      (names : List Text) (other : Text) (cat : Catalog)
      → any (same_text other) names ≡ false
      → found_in (ensure_each_collection admin existing names cat) other ≡ found_in cat other
  unfolding ensure_each_collection any
  rest_other [] other cat h = refl
  rest_other (name ∷ names) other cat h =
      rest_other names other (ensure_collection admin existing name cat) (ground arith)
      ∙ step_other name other cat (ground arith)

  IsCurrent-after :
      (names : List Text) (name : Text) (cat : Catalog)
      → any (same_text name) names ≡ false
      → All (λ n. IsCurrent existing n (found_in cat n)) names
      → All
          (λ n. IsCurrent existing n (found_in (ensure_collection admin existing name cat) n))
          names
  unfolding any
  IsCurrent-after [] name cat h current = tt
  IsCurrent-after (n ∷ names) name cat h current = (
    subst (IsCurrent existing n)
        (sym (step_other name n cat (same_text_comm n name ∙ ground arith))) current.0,
    IsCurrent-after names name cat (ground arith) current.1,
  )

  each-IsReady :
      (names : List Text) (cat : Catalog)
      → AllDistinct names
      → All (λ n. IsCurrent existing n (found_in cat n)) names
      → All (λ n. IsReady n (found_in (ensure_each_collection admin existing names cat) n)) names
  unfolding ensure_each_collection
  each-IsReady [] cat different current = tt
  each-IsReady (name ∷ names) cat different current =
      let after = ensure_collection admin existing name cat in
      (
        subst (IsReady name) (sym (rest_other names name after different.0))
            (step-IsReady name cat current.0),
        each-IsReady names after different.1 (IsCurrent-after names name cat different.0 current.1),
      )

as_runtime_error_ok :
    (r : Result Catalog) {cat : Catalog} → as_runtime_error r ≡ ok cat → r ≡ ok cat
as_runtime_error_ok (ok c) h = h
as_runtime_error_ok (err (Exc.operation_failure t)) h = absurd (cc)
as_runtime_error_ok (err (Exc.rejected e)) h = absurd (cc)
as_runtime_error_ok (err Exc.value_error) h = absurd (cc)
as_runtime_error_ok (err Exc.validation_error) h = absurd (cc)
as_runtime_error_ok (err Exc.duplicate_key) h = absurd (cc)
as_runtime_error_ok (err Exc.runtime_error) h = absurd (cc)
as_runtime_error_ok (err Exc.overflow_error) h = absurd (cc)
as_runtime_error_ok (err (Exc.connection_failure b)) h = absurd (cc)

all_collections_distinct : AllDistinct all_collections
unfolding any same_text
all_collections_distinct = (refl, (refl, (refl, (refl, (refl, tt)))))

-- What the rest of the program relies on: every collection with its validator, and every index.
pub record IsInitialised (cat : Catalog) : Type 0 where
  pub ready : All (λ n. IsReady n (lookup_text n cat.collections)) all_collections
  pub indexed : All (λ i. In i cat.indexes) required_indexes

-- If collections that were listed are still there, and those that came since were made by a worker
-- of the same program, an initialisation that succeeds leaves every collection with the validator
-- that the program has for it, and every index of the list.
pub initialise_database-IsInitialised :
    (admin : Admin) (seen cat cat' : Catalog)
    → All
        (λ n. IsCurrent (map (λ c. c.0) seen.collections) n (lookup_text n cat.collections))
        all_collections
    → initialise_database admin seen cat ≡ ok cat'
    → IsInitialised cat'
unfolding initialise_database ensure_indexes ensure_collections_and_validators
initialise_database-IsInitialised admin seen cat cat' current h =
    let existing = map (λ (c : Text × Option Validator). c.0) seen.collections in
    let prepared = ensure_each_collection admin existing all_collections cat in
    let (indexed, same) =
      create_indexes-In admin required_indexes prepared cat'
        (as_runtime_error_ok (create_indexes admin required_indexes prepared) h) in
    record {
      ready =
          subst
            (λ (l : List (Text × Option Validator)).
              All (λ n. IsReady n (lookup_text n l)) all_collections)
            (sym same)
            (each-IsReady admin existing all_collections cat all_collections_distinct current);
      indexed = indexed;
    }
