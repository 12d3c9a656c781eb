-- ===== src/System/Invariant.antt =====
-- Every step keeps the invariant, so every reachable state has it.
use ledgerlock.System.Posted.{Grows-next, Sound-next}
use ledgerlock.System.Sound.{Sound, Inv}
use ledgerlock.Accounts.{is_system_for}
use ledgerlock.Accounts.Laws.{ensure_system_account_ok, create_account_ok}
use ledgerlock.Database.Laws.{has_id, account_by_id_insert, account_by_id-first}
use ledgerlock.Balance.Laws.{balance_at}
use ledgerlock.Ledger.Effects.{perform_all-transfer}
use ledgerlock.Ledger.Guards.{record_of, lock_of}
use ledgerlock.Ledger.Applied.{apply_transfer_ok, Applied}
use ledgerlock.System.Growth.{Grows-authenticate, Grows-insert, Grows-trans, Grows-refl, Grows}
use ledgerlock.Ledger.Pairs.{nothing_written}
use ledgerlock.Ledger.{open_session, Session, LedgerWriteResult, Draw, Transfer}
use ledgerlock.Database.{
  clash_account, insert_user, insert_account, insert_entries, insert_transaction, increment_counter,
  Write, perform_all, account_by_id, Database,
}
use ledgerlock.System.{init, Reach, Step, commit, Unchanged, Elem, State}
use ledgerlock.Mongo.{Mongo}
use ledgerlock.Models.{RevokedToken, User, is_user, Account, ObjectId}
use ledgerlock.Errors.{ok}
use ledgerlock.Base.{
  eq_of_same_text, any_weaken, Text, length-keep-insert, first, keep, sum_by, none_ne_some, ◌++◌,
  List, subst, ◌∙◌, sym, any, ℤ, some_eq, ap, ◌≢◌, ◌≤ℤ◌, Option-cases, ◌≡◌, pos, inr, inl, arith,
  refl, false, true, ◌∷◌, [], ℕ,
}

-- The unique indexes on accounts, from the side of a lookup.
pub clash_id :
    (n : Account) (i : ObjectId) (l : List Account)
    → any (clash_account n) l ≡ false
    → has_id i n ≡ true
    → any (has_id i) l ≡ false
unfolding clash_account
clash_id n i l h e = any_weaken (clash_account n) (has_id i) (λ x q. ground arith) l h

clash_system :
    (n : Account) (c : Text) (l : List Account)
    → any (clash_account n) l ≡ false
    → is_system_for c n ≡ true
    → any (is_system_for c) l ≡ false
unfolding clash_account
clash_system n c l h e =
    any_weaken (clash_account n) (is_system_for c)
      (λ x q. ground (arith, eq_of_same_text c n.currency)) l h

module _ ⦃m : Mongo⦄ where
  pub Unchanged-append :
      (xs ys : List Write) (snapshot current : Database)
      → Unchanged (xs ++ ys) snapshot current
      → Unchanged xs snapshot current
  Unchanged-append [] ys snapshot current h = tt
  Unchanged-append (increment_counter i ∷ xs) ys snapshot current h =
      (h.0, Unchanged-append xs ys snapshot current h.1)
  Unchanged-append (insert_transaction t ∷ xs) ys snapshot current h =
      Unchanged-append xs ys snapshot current h
  Unchanged-append (insert_entries es ∷ xs) ys snapshot current h =
      Unchanged-append xs ys snapshot current h
  Unchanged-append (insert_account a ∷ xs) ys snapshot current h =
      Unchanged-append xs ys snapshot current h
  Unchanged-append (insert_user u ∷ xs) ys snapshot current h =
      Unchanged-append xs ys snapshot current h

  -- A commit of a grown and sound version keeps the invariant.
  Inv-commit :
      (s : State) (db : Database) → Inv s → Grows s.current db → Sound db → Inv (commit db s)
  Inv-commit s db inv g sound = record {
    grows = λ v e. elim e [
      | inl same ↦ subst (λ (x : Database). Grows x db) (sym same) (Grows-refl db)
      | inr old ↦ Grows-trans v s.current db (inv.grows v old) g
    ];
    sound = sound;
  }

  Inv-transfer :
      (s : State) (attempts : ℕ) (r : Transfer) (d : Draw) (snapshot db : Database)
      (out : LedgerWriteResult × Session)
      → Inv s
      → Elem snapshot (s.current ∷ s.history)
      → r.source_account_id ≢ r.destination_account_id
      → Applied attempts r d (open_session snapshot) out
      → Unchanged out.1.writes snapshot s.current
      → perform_all out.1.writes s.current ≡ ok db
      → Inv (commit db s)
  Inv-transfer s attempts r d snapshot db out inv old ne run same done =
      let g = inv.grows snapshot old in
      let unchanged =
        Unchanged-append (lock_of r run.source) (record_of r d) snapshot s.current
          (subst (λ (ws : List Write). Unchanged ws snapshot s.current) run.written same) in
      let (no_clash, next_is) =
        perform_all-transfer r d run.source s.current db
          (subst (λ (ws : List Write). perform_all ws s.current ≡ ok db) run.written done) in
      Inv-commit s db inv
        (subst (λ (x : Database). Grows s.current x) (sym next_is)
          (Grows-next run s.current g ne unchanged inv.sound))
        (subst Sound (sym next_is) (Sound-next run s.current g ne unchanged inv.sound no_clash))

  -- A new account has no entries, and changes no balance.
  Sound-insert :
      (db : Database) (n : Account)
      → Sound db
      → any (clash_account n) db.accounts ≡ false
      → Sound (record db { accounts = db.accounts ++ n ∷ [] })
  Sound-insert db n s fresh = record {
    unique = λ i.
        length-keep-insert (has_id i) db.accounts n (clash_id n i db.accounts fresh) (s.unique i);
    one_boundary = λ c.
        length-keep-insert (is_system_for c) db.accounts n (clash_system n c db.accounts fresh)
          (s.one_boundary c);
    paired = s.paired;
    nonneg = λ i a e u. elim (Option-cases (account_by_id i db)) [
      | inl missing ↦ subst (λ (b : ℤ). pos 0 ≤ℤ b) (sym (s.unborn i missing)) (omega arith)
      | inr (b, eb) ↦
          let eb' = account_by_id_insert i db n eb in
          s.nonneg i b eb (ap (λ (x : Account). is_user x.account_type) (some_eq (sym eb' ∙ e)) ∙ u)
    ];
    unborn = λ i e. elim (Option-cases (account_by_id i db)) [
      | inl missing ↦ s.unborn i missing
      | inr (b, eb) ↦
          let eb' = account_by_id_insert i db n eb in absurd (none_ne_some (sym e ∙ eb'))
    ];
  }

  Inv-insert :
      (s : State) (n : Account)
      → Inv s
      → any (clash_account n) s.current.accounts ≡ false
      → Inv (commit (record s.current { accounts = s.current.accounts ++ n ∷ [] }) s)
  Inv-insert s n inv fresh =
      Inv-commit s _ inv (Grows-insert s.current n) (Sound-insert s.current n inv.sound fresh)

  Inv-authenticate :
      (s : State) (us : List User) (rs : List RevokedToken)
      → Inv s
      → Inv (commit (record s.current { users = us; revoked_tokens = rs }) s)
  Inv-authenticate s us rs inv = Inv-commit s _ inv (Grows-authenticate s.current us rs) record {
    paired = inv.sound.paired;
    unique = inv.sound.unique;
    one_boundary = inv.sound.one_boundary;
    nonneg = λ i a e u.
        inv.sound.nonneg i a (account_by_id-first _ _ ∙ sym (account_by_id-first _ _) ∙ e) u;
    unborn =
        λ i e. inv.sound.unborn i (account_by_id-first _ _ ∙ sym (account_by_id-first _ _) ∙ e);
  }

  Step-Inv : {s t : State} → Step s t → Inv s → Inv t
  Step-Inv {s} (Step.transfer attempts r d snapshot db out old ne run same done e) inv =
      subst Inv (sym e) (
        Inv-transfer s attempts r d snapshot db out inv old ne
          (apply_transfer_ok attempts r d (open_session snapshot) out run) same done)
  Step-Inv {s} (Step.open_account owner currency label d account db run e) inv =
      let (_, fresh, same) = create_account_ok owner currency label d s.current account db run in
      subst Inv (sym e)
        (subst (λ (x : Database). Inv (commit x s)) (sym same) (Inv-insert s account inv fresh))
  Step-Inv {s} (Step.provision currency d i db run e) inv =
      subst Inv (sym e) (elim (ensure_system_account_ok currency d s.current i db run) [
        | inl same ↦
            subst (λ (x : Database). Inv (commit x s)) (sym same)
              (Inv-commit s s.current inv (Grows-refl s.current) inv.sound)
        | inr (n, fresh, same) ↦
            subst (λ (x : Database). Inv (commit x s)) (sym same) (Inv-insert s n inv fresh)
      ])
  Step-Inv {s} (Step.authenticate us rs e) inv = subst Inv (sym e) (Inv-authenticate s us rs inv)

  Inv-init : Inv init
  unfolding balance_at sum_by keep first
  Inv-init = record {
    grows = λ v e. elim e [
      | inl same ↦ subst (λ (x : Database). Grows x init.current) (sym same) (Grows-refl _)
      | inr none_left ↦ absurd none_left
    ];
    sound = record {
      paired = nothing_written;
      unique = λ _. omega arith;
      one_boundary = λ _. omega arith;
      nonneg = λ i a e u. absurd (none_ne_some (sym (account_by_id-first i init.current) ∙ e));
      unborn = λ i e. refl;
    };
  }

  -- Every reachable state keeps the invariant.
  pub Reach-Inv : {s : State} → Reach s → Inv s
  Reach-Inv Reach.start = Inv-init
  Reach-Inv (Reach.later r step) = Step-Inv step (Reach-Inv r)
