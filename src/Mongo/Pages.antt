-- ===== src/Mongo/Pages.antt =====
-- What a sorted page of a collection has of it, whatever the order of equal keys.
use ledgerlock.Mongo.{Mongo, Ascending, SameMembers}
use ledgerlock.Base.{
  any, All, keep, length, take, drop, take_all, not, Bool, Bool-cases, ◌≡◌, ◌≤◌, ◌&&◌, ◌∙◌, sym, ap,
  subst, List, ℕ, true, arith, refl, inl, inr, suc, zero, [], ◌∷◌,
}

module _ {A : Type 0} where
  any-take : (q : A → Bool) (n : ℕ) (l : List A) → any q (take n l) ≡ true → any q l ≡ true
  unfolding any
  any-take q zero l h = absurd (cc)
  any-take q (suc n) [] h = absurd (cc)
  any-take q (suc n) (x ∷ l) h = ground (arith, any-take q n l)

  any-drop : (q : A → Bool) (n : ℕ) (l : List A) → any q (drop n l) ≡ true → any q l ≡ true
  unfolding any
  any-drop q zero l h = h
  any-drop q (suc n) [] h = absurd (cc)
  any-drop q (suc n) (x ∷ l) h = ground (arith, any-drop q n l)

  some_kept : (q : A → Bool) (l : List A) → any q l ≡ true → 1 ≤ length (keep q l)
  unfolding any keep
  some_kept q [] h = absurd (cc)
  some_kept q (x ∷ l) h = ground (arith, some_kept q l)

  any_of_kept : (q : A → Bool) (l : List A) → 1 ≤ length (keep q l) → any q l ≡ true
  unfolding any keep
  any_of_kept q [] h = absurd (omega (arith, h))
  any_of_kept q (x ∷ l) h = ground (arith, any_of_kept q l)

  none_kept :
      (q : A → Bool) (l : List A) → All (λ x. q x ≡ true) l → length (keep (λ x. not (q x)) l) ≡ 0
  unfolding keep
  none_kept q [] h = refl
  none_kept q (x ∷ l) h = ground (arith, h.0, none_kept q l h.1)

  All_of_none :
      (q : A → Bool) (l : List A) → length (keep (λ x. not (q x)) l) ≡ 0 → All (λ x. q x ≡ true) l
  unfolding keep
  All_of_none q [] h = tt
  All_of_none q (x ∷ l) h = elim (Bool-cases (q x)) [
    | inl y ↦ (y, All_of_none q l (rw y at h))
    | inr n ↦ absurd (omega (arith, rw n at h))
  ]

  pub any-keep_parts :
      (p q : A → Bool) (l : List A) → any q (keep p l) ≡ true → any (λ x. p x && q x) l ≡ true
  unfolding any keep
  any-keep_parts p q [] h = absurd (cc)
  any-keep_parts p q (x ∷ l) h = ground (arith, any-keep_parts p q l)

  keep_all : (l : List A) → keep (λ _. true) l ≡ l
  unfolding keep
  keep_all [] = refl
  keep_all (x ∷ l) = ap (λ (r : List A). x ∷ r) (keep_all l)

  SameMembers-any :
      (q : A → Bool) (s l : List A) → SameMembers s l → any q s ≡ true → any q l ≡ true
  SameMembers-any q s l same h =
      any_of_kept q l (subst (λ (n : ℕ). 1 ≤ n) (same q) (some_kept q s h))

  SameMembers-All :
      (q : A → Bool) (s l : List A)
      → SameMembers s l
      → All (λ x. q x ≡ true) l
      → All (λ x. q x ≡ true) s
  SameMembers-All q s l same h = All_of_none q s (same (λ x. not (q x)) ∙ none_kept q l h)

  SameMembers-length : (s l : List A) → SameMembers s l → length s ≡ length l
  SameMembers-length s l same =
      sym (ap length (keep_all s)) ∙ same (λ _. true) ∙ ap length (keep_all l)

  All_taken : (P : A → Type 0) (n : ℕ) (l : List A) → All P l → All P (take n l)
  All_taken P zero l h = tt
  All_taken P (suc n) [] h = tt
  All_taken P (suc n) (x ∷ l) h = (h.0, All_taken P n l h.1)

  All_dropped : (P : A → Type 0) (n : ℕ) (l : List A) → All P l → All P (drop n l)
  All_dropped P zero l h = h
  All_dropped P (suc n) [] h = tt
  All_dropped P (suc n) (x ∷ l) h = All_dropped P n l h.1

  Ascending-take : (key : A → ℕ) (n : ℕ) (l : List A) → Ascending key l → Ascending key (take n l)
  Ascending-take key zero l h = tt
  Ascending-take key (suc n) [] h = tt
  Ascending-take key (suc n) (x ∷ l) h = (All_taken _ n l h.0, Ascending-take key n l h.1)

  Ascending-drop : (key : A → ℕ) (n : ℕ) (l : List A) → Ascending key l → Ascending key (drop n l)
  Ascending-drop key zero l h = h
  Ascending-drop key (suc n) [] h = tt
  Ascending-drop key (suc n) (x ∷ l) h = Ascending-drop key n l h.1

  length_taken : (n : ℕ) (l : List A) → length (take n l) ≤ n
  length_taken zero l = omega arith
  length_taken (suc n) [] = omega arith
  length_taken (suc n) (x ∷ l) = omega (arith, length_taken n l)

module _ ⦃m : Mongo⦄ {A : Type 0} (key : A → ℕ) where
  pub page_any :
      (q : A → Bool) (limit skip : ℕ) (l : List A)
      → any q (m.find_page key limit skip l) ≡ true
      → any q l ≡ true
  page_any q limit skip l h =
      let (s, _, same, page) = m.find_page_sorted key limit skip l in
      SameMembers-any q s l same
        (any-drop q skip s (any-take q limit (drop skip s) (sym (ap (any q) page) ∙ h)))

  pub page_All :
      (q : A → Bool) (limit skip : ℕ) (l : List A)
      → All (λ x. q x ≡ true) l
      → All (λ x. q x ≡ true) (m.find_page key limit skip l)
  page_All q limit skip l h =
      let (s, _, same, page) = m.find_page_sorted key limit skip l in
      subst (All (λ x. q x ≡ true)) (sym page)
        (All_taken _ limit _ (All_dropped _ skip s (SameMembers-All q s l same h)))

  -- A first page that is long enough leaves nothing out.
  pub page_whole :
      (q : A → Bool) (limit : ℕ) (l : List A)
      → length l ≤ limit
      → any q l ≡ true
      → any q (m.find_page key limit 0 l) ≡ true
  page_whole q limit l few h =
      let (s, _, same, page) = m.find_page_sorted key limit 0 l in
      let fits : length s ≤ limit =
        subst (λ (n : ℕ). n ≤ limit) (sym (SameMembers-length s l same)) few in
      ap (any q) (page ∙ take_all limit s fits) ∙ SameMembers-any q l s (λ p. sym (same p)) h

  pub page-Ascending : (limit skip : ℕ) (l : List A) → Ascending key (m.find_page key limit skip l)
  page-Ascending limit skip l =
      let (s, ordered, _, page) = m.find_page_sorted key limit skip l in
      subst (Ascending key) (sym page)
        (Ascending-take key limit _ (Ascending-drop key skip s ordered))

  pub page_length : (limit skip : ℕ) (l : List A) → length (m.find_page key limit skip l) ≤ limit
  page_length limit skip l =
      let (s, _, _, page) = m.find_page_sorted key limit skip l in
      subst (λ (x : List A). length x ≤ limit) (sym page) (length_taken limit (drop skip s))
