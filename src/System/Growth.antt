-- ===== src/System/Growth.antt =====
-- What stays from one committed version to a later one.
use ledgerlock.Ledger.Effects.{
  balance_at-transferred, account_by_id-transferred, transferred, moved,
}
use ledgerlock.Database.Laws.{has_id, account_by_id-first}
use ledgerlock.Ledger.{Draw, Transfer}
use ledgerlock.Balance.Laws.{balance_at}
use ledgerlock.Database.{increment, account_by_id, Database}
use ledgerlock.Mongo.{Mongo}
use ledgerlock.Models.{RevokedToken, User, is_user, Account, ObjectId}
use ledgerlock.Base.{
  some_eq, eq_of_==, ℤ, subst, ◌&&◌, +ℤ_parts, Bool-cases, first-append, ◌==◌, sym, ◌++◌, ap, List,
  ◌≤ℤ◌, ◌≤◌, ◌≡◌, ◌∙◌, pos, inr, inl, arith, refl, false, true, some, ◌∷◌, [],
}

-- An account of an early version as a later one has it. While the counter of a USER account stands
-- still, its balance does not fall.
pub record Kept (i : ObjectId) (early late : Database) (a b : Account) : Type 0 where
  pub same_type : a.account_type ≡ b.account_type
  pub same_currency : a.currency ≡ b.currency
  pub counted : a.debit_serialisation_counter ≤ b.debit_serialisation_counter
  pub grown :
      is_user a.account_type ≡ true
      → a.debit_serialisation_counter ≡ b.debit_serialisation_counter
      → balance_at i early.ledger_entries ≤ℤ balance_at i late.ledger_entries

Kept-trans :
    (i : ObjectId) (x y z : Database) (a b c : Account)
    → Kept i x y a b
    → Kept i y z b c
    → Kept i x z a c
Kept-trans i x y z a b c k l = record {
  same_type = k.same_type ∙ l.same_type;
  same_currency = k.same_currency ∙ l.same_currency;
  counted = omega (arith, k.counted, l.counted);
  grown = λ u q. omega (
    arith,
    k.grown u (omega (arith, k.counted, l.counted)),
    l.grown (ap is_user (sym k.same_type) ∙ u) (omega (arith, k.counted, l.counted)),
  );
}

-- An account that is not debited does not lose.
pub moved_nonneg :
    (r : Transfer) (i : ObjectId)
    → pos 1 ≤ℤ r.amount_minor
    → (r.source_account_id == i) ≡ false
    → pos 0 ≤ℤ moved r i
moved_nonneg r i p n = elim (Bool-cases (r.destination_account_id == i)) [
  | inl e ↦ rw (n, e) (omega (arith, +ℤ_parts (pos 0) r.amount_minor))
  | inr e ↦ rw (n, e) (omega (arith, +ℤ_parts (pos 0) (pos 0)))
]

Kept-locked :
    (i : ObjectId) (early late : Database) (a : Account) → Kept i early late a (increment a)
Kept-locked i early late a = record {
  same_type = refl;
  same_currency = refl;
  counted = omega arith;
  grown = λ _ q. absurd (omega (arith, q));
}

Kept-same :
    (i : ObjectId) (early late : Database) (a : Account)
    → (is_user a.account_type ≡ true
        → balance_at i early.ledger_entries ≤ℤ balance_at i late.ledger_entries)
    → Kept i early late a a
Kept-same i early late a g = record {
  same_type = refl;
  same_currency = refl;
  counted = omega arith;
  grown = λ u _. g u;
}

pub balance-transferred_grows :
    (r : Transfer) (d : Draw) (source : Account) (db : Database) (i : ObjectId)
    → pos 1 ≤ℤ r.amount_minor
    → (r.source_account_id == i) ≡ false
    → balance_at i db.ledger_entries ≤ℤ balance_at i (transferred r d source db).ledger_entries
balance-transferred_grows r d source db i p n =
    subst (λ (b : ℤ). balance_at i db.ledger_entries ≤ℤ b)
      (sym (balance_at-transferred r d source db i))
      (omega (arith, +ℤ_parts (balance_at i db.ledger_entries) (moved r i), moved_nonneg r i p n))

module _ ⦃m : Mongo⦄ where
  pub record Grows (early late : Database) : Type 0 where
    pub kept :
        (i : ObjectId) (a : Account)
        → account_by_id i early ≡ some a
        → (b : Account) × (account_by_id i late ≡ some b) × Kept i early late a b

  pub Grows-refl : (db : Database) → Grows db db
  Grows-refl db = record {
    kept = λ i a e. (
      a,
      e,
      record {
        same_type = refl;
        same_currency = refl;
        counted = omega arith;
        grown = λ _ _. omega arith;
      },
    );
  }

  pub Grows-trans : (x y z : Database) → Grows x y → Grows y z → Grows x z
  Grows-trans x y z g h = record {
    kept = λ i a e.
        let (b, eb, k) = g.kept i a e in
        let (c, ec, l) = h.kept i b eb in (c, ec, Kept-trans i x y z a b c k l);
  }

  -- A commit that leaves accounts and entries alone.
  pub Grows-authenticate :
      (db : Database) (us : List User) (rs : List RevokedToken)
      → Grows db (record db { users = us; revoked_tokens = rs })
  Grows-authenticate db us rs = record {
    kept = λ i a e. (
      a,
      account_by_id-first _ _ ∙ sym (account_by_id-first _ _) ∙ e,
      Kept-same i _ _ a (λ _. omega arith),
    );
  }

  pub Grows-insert :
      (db : Database) (n : Account) → Grows db (record db { accounts = db.accounts ++ n ∷ [] })
  Grows-insert db n = record {
    kept = λ i a e. (
      a,
      account_by_id-first _ _
          ∙ first-append (has_id i) db.accounts (n ∷ []) (sym (account_by_id-first i db) ∙ e),
      Kept-same i _ _ a (λ _. omega arith),
    );
  }

  -- A USER account that is not locked is not the source.
  not_source :
      (r : Transfer) (source held : Account) (db : Database) (i : ObjectId) (a : Account)
      → account_by_id r.source_account_id db ≡ some held
      → source.account_type ≡ held.account_type
      → account_by_id i db ≡ some a
      → is_user a.account_type ≡ true
      → (is_user source.account_type && r.source_account_id == i) ≡ false
      → (r.source_account_id == i) ≡ false
  not_source r source held db i a found same e u n = elim (Bool-cases (r.source_account_id == i)) [
    | inl s ↦
        let at_i : account_by_id i db ≡ some held =
          subst (λ (j : ObjectId). account_by_id j db ≡ some held) (eq_of_== _ _ s) found in
        let held_is_a : held ≡ a = some_eq (sym at_i ∙ e) in
        let is_user_source : is_user source.account_type ≡ true =
          ap is_user (same ∙ ap (λ (x : Account). x.account_type) held_is_a) ∙ u in
        absurd (cc (is_user_source, s, n))
    | inr f ↦ f
  ]

  transferred_kept :
      (r : Transfer) (d : Draw) (source held : Account) (db : Database) (i : ObjectId) (a : Account)
      → pos 1 ≤ℤ r.amount_minor
      → account_by_id r.source_account_id db ≡ some held
      → source.account_type ≡ held.account_type
      → account_by_id i db ≡ some a
      → (b : Account) × (account_by_id i (transferred r d source db) ≡ some b)
        × Kept i db (transferred r d source db) a b
  transferred_kept r d source held db i a p found same e =
      elim (Bool-cases (is_user source.account_type && r.source_account_id == i)) [
        | inl l ↦ (
          increment a,
          account_by_id-transferred r d source db i ∙ rw (l, e),
          Kept-locked i db (transferred r d source db) a,
        )
        | inr n ↦ (
          a,
          account_by_id-transferred r d source db i ∙ rw (n, e),
          Kept-same i db (transferred r d source db) a (λ u.
              balance-transferred_grows r d source db i p
                (not_source r source held db i a found same e u n)),
        )
      ]

  pub Grows-transferred :
      (r : Transfer) (d : Draw) (source held : Account) (db : Database)
      → pos 1 ≤ℤ r.amount_minor
      → account_by_id r.source_account_id db ≡ some held
      → source.account_type ≡ held.account_type
      → Grows db (transferred r d source db)
  Grows-transferred r d source held db p found same = record {
    kept = λ i a e. transferred_kept r d source held db i a p found same e;
  }
