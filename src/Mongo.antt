-- ===== src/Mongo.antt =====
-- The document store as the code uses it: an interface, since MongoDB is not part of the
-- repository. A collection is the list of its documents in natural order. Each law states the
-- documented result of a call on such a list. `group` is an aggregation's `$group` (with the key
-- `None` it has one group, or none if no document came in) and `lookup` its `$lookup`; `find` is
-- also `$match`. What a server answers to concurrent sessions is not here: see Ledger/Create.antt
-- and System.antt.
pub mod Laws
pub mod Pages
use ledgerlock.Base.{
  ℕ, All, ◌≤◌, length, take, drop, Bool, true, false, not, Option, List, [], ◌∷◌, ◌++◌, ◌≡◌, map,
  first, any, keep, update_first, if◌then◌else◌, Text,
}
use ledgerlock.Errors.{Result, ok, err, duplicate_key, operation_failure}
use ledgerlock.Models.{is_currency_code}

-- The keys of a list, each once, in the order of first occurrence.
unfoldable pub distinct {ℓ} : {K : Type ℓ} → (K → K → Bool) → List K → List K
unfolding keep
distinct same [] = []
distinct same (k ∷ ks) = k ∷ keep (λ j. not (same k j)) (distinct same ks)

-- An insert into a collection with a validator and a unique index.
unfoldable pub insert_checked {ℓ} :
    {A : Type ℓ} → (A → Bool) → (A → A → Bool) → A → List A → Result (List A)
insert_checked valid clash a l =
    if valid a
    then if any (clash a) l then err duplicate_key else ok (l ++ a ∷ [])
    else err (operation_failure false)

-- In ascending order of a key; nothing is said of equal keys.
abbrev pub Ascending : {A : Type 0} → (A → ℕ) → List A → Type 0
Ascending key [] = Unit
Ascending key (x ∷ l) = All (λ y. key x ≤ key y) l × Ascending key l

-- The same documents, each as often, in any order.
abbrev pub SameMembers : {A : Type 0} → List A → List A → Type 0
SameMembers {A} s l = (q : A → Bool) → length (keep q s) ≡ length (keep q l)

pub record Mongo : Type 1 where
  pub find_one : {A : Type 0} → (A → Bool) → List A → Option A
  pub find : {A : Type 0} → (A → Bool) → List A → List A
  pub update_one : {A : Type 0} → (A → Bool) → (A → A) → List A → List A
  pub insert_one : {A : Type 0} → (A → Bool) → (A → A → Bool) → A → List A → Result (List A)
  pub group : {A K R : Type 0} → (K → K → Bool) → (A → K) → (K → List A → R) → List A → List R
  pub lookup : {A B : Type 0} → (A → B → Bool) → List B → List A → List (A × List B)
  -- The validators' `pattern` for a currency, by the server's own regular expressions.
  pub currency_pattern : Text → Bool
  -- `find(...).sort(key, ASCENDING).skip(skip).limit(limit)`: each query may order equal keys anew.
  pub find_page : {A : Type 0} → (A → ℕ) → ℕ → ℕ → List A → List A
  -- `update_one` with `$setOnInsert` alone and `upsert=True`.
  pub upsert_one : {A : Type 0} → (A → Bool) → A → List A → List A
  pub find_one_first : {A : Type 0} (p : A → Bool) (l : List A) → find_one p l ≡ first p l
  pub find_keep : {A : Type 0} (p : A → Bool) (l : List A) → find p l ≡ keep p l
  pub update_one_first :
      {A : Type 0} (p : A → Bool) (f : A → A) (l : List A) → update_one p f l ≡ update_first p f l
  pub upsert_one_set :
      {A : Type 0} (p : A → Bool) (a : A) (l : List A)
      → upsert_one p a l ≡ (if any p l then l else l ++ a ∷ [])
  pub insert_one_checked :
      {A : Type 0} (valid : A → Bool) (clash : A → A → Bool) (a : A) (l : List A)
      → insert_one valid clash a l ≡ insert_checked valid clash a l
  pub find_page_sorted :
      {A : Type 0} (key : A → ℕ) (limit skip : ℕ) (l : List A)
      → (s : List A) × Ascending key s
        × SameMembers s l
        × (find_page key limit skip l ≡ take limit (drop skip s))
  pub group_rows :
      {A K R : Type 0} (same : K → K → Bool) (key : A → K) (row : K → List A → R) (l : List A)
      → group same key row l
        ≡ map (λ k. row k (keep (λ a. same k (key a)) l)) (distinct same (map key l))
  pub lookup_rows :
      {A B : Type 0} (join : A → B → Bool) (other : List B) (l : List A)
      → lookup join other l ≡ map (λ a. (a, keep (join a) other)) l
  pub currency_pattern_code : (t : Text) → is_currency_code t ≡ true → currency_pattern t ≡ true
