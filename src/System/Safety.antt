-- ===== src/System/Safety.antt =====
-- What holds in every state that the system reaches, for the code's own reads of it.
use ledgerlock.Ledger.Effects.{perform_all-transfer}
use mathlib.Core.List.{append_assoc, append-nil}
use ledgerlock.Accounts.Laws.{ensure_system_account_ok, create_account_ok}
use ledgerlock.Ledger.{open_session}
use ledgerlock.Ledger.Guards.{credit_of, debit_of}
use ledgerlock.Ledger.Applied.{apply_transfer_ok}
use ledgerlock.Balance.Laws.{balance-compute_balance}
use ledgerlock.System.Invariant.{Reach-Inv}
use ledgerlock.Accounts.{is_system_for}
use ledgerlock.Balance.{get_available_balance_minor}
use ledgerlock.System.{Elem, commit, Step, Reach, State}
use ledgerlock.Database.{perform_all, Write, Database, account_by_id, clash_transaction}
use ledgerlock.Mongo.{Mongo}
use ledgerlock.Models.{is_user, Account, Transaction, LedgerEntry, ObjectId}
use ledgerlock.Errors.{ok}
use ledgerlock.Base.{
  ◌∙◌, ap, ◌++◌, eq_of_same_text, sym, ℤ, subst, length-keep-insert, ◌≤ℤ◌, ◌≤◌, any_weaken, ◌≡◌,
  same_text, any, length, Text, List, keep, pos, inr, inl, arith, refl, false, true, some, ◌∷◌, [],
}
use ledgerlock.Ledger.Pairs.{Paired, nothing_written, pair}

module _ ⦃m : Mongo⦄ where
  -- No interleaving of the steps takes a USER account below zero: the balance that the code computes
  -- from the entries is at least zero in every state that the system reaches.
  pub no_overdraft :
      {s : State}
      → Reach s
      → (i : ObjectId) (a : Account) → account_by_id i s.current ≡ some a
      → is_user a.account_type ≡ true
      → pos 0 ≤ℤ get_available_balance_minor i s.current.ledger_entries
  unfolding get_available_balance_minor
  no_overdraft reached i a found u =
      subst (λ (x : ℤ). pos 0 ≤ℤ x) (sym (balance-compute_balance i _))
        ((Reach-Inv reached).sound.nonneg i a found u)

  one_system_account :
      {s : State} → Reach s → (c : Text) → length (m.find (is_system_for c) s.current.accounts) ≤ 1
  one_system_account reached c = rw (m.find_keep) ((Reach-Inv reached).sound.one_boundary c)

key_unused_after :
    (k : Text) (ts : List Transaction) (t : Transaction)
    → any (clash_transaction t) ts ≡ false
    → same_text k t.idempotency_key ≡ true
    → any (λ (u : Transaction). same_text k u.idempotency_key) ts ≡ false
unfolding clash_transaction
key_unused_after k ts t fresh e =
    any_weaken (clash_transaction t) (λ u. same_text k u.idempotency_key)
      (λ u n. ground (arith, eq_of_same_text k t.idempotency_key)) ts fresh

once :
    {ts : List Transaction} {es : List LedgerEntry}
    → Paired ts es
    → (k : Text) → length (keep (λ (t : Transaction). same_text k t.idempotency_key) ts) ≤ 1
unfolding keep
once nothing_written k = omega arith
once (pair {ts = ts} p t d c q fresh) k =
    length-keep-insert (λ (u : Transaction). same_text k u.idempotency_key) ts t
      (key_unused_after k ts t fresh) (once p k)

unchanged :
    {s t : State} {db next : Database}
    → t ≡ commit db s
    → db ≡ next
    → next.ledger_entries ≡ s.current.ledger_entries
    → t.current.ledger_entries ≡ s.current.ledger_entries ++ []
unchanged e same kept =
    ap (λ (x : State). x.current.ledger_entries) e
    ∙ ap (λ (x : Database). x.ledger_entries) same
    ∙ kept
    ∙ sym (append-nil _)

module _ ⦃m : Mongo⦄ where
  posted_once :
      {s : State}
      → Reach s
      → (k : Text)
      → length (m.find (λ (t : Transaction). same_text k t.idempotency_key) s.current.transactions)
        ≤ 1
  posted_once reached k = rw (m.find_keep) (once (Reach-Inv reached).sound.paired k)

  -- In every state that the system reaches at most one transaction has a given idempotency key, and at
  -- most one account is the SYSTEM account of a given currency.
  pub used_once :
      {s : State}
      → Reach s
      → (key currency : Text)
      → (length
            (m.find (λ (t : Transaction). same_text key t.idempotency_key) s.current.transactions)
          ≤ 1)
        × (length (m.find (is_system_for currency) s.current.accounts) ≤ 1)
  used_once reached key currency = (posted_once reached key, one_system_account reached currency)

  entries_added :
      {s t : State}
      → Step s t
      → (es : List LedgerEntry) × (t.current.ledger_entries ≡ s.current.ledger_entries ++ es)
  entries_added {s} (Step.transfer attempts r d snapshot db out old ne run same done e) =
      let a = apply_transfer_ok attempts r d (open_session snapshot) out run in
      (
        debit_of r d ∷ credit_of r d ∷ [],
        ap (λ (x : State). x.current.ledger_entries) e
            ∙ ap (λ (x : Database). x.ledger_entries)
                (perform_all-transfer r d a.source s.current db
                  (subst (λ (ws : List Write). perform_all ws s.current ≡ ok db) a.written done)).1,
      )
  entries_added {s} (Step.open_account owner currency label d account db run e) =
      let (_, _, same) = create_account_ok owner currency label d s.current account db run in
      ([], unchanged e same refl)
  entries_added {s} (Step.provision currency d i db run e) =
      elim (ensure_system_account_ok currency d s.current i db run) [
        | inl same ↦ ([], unchanged e same refl)
        | inr (n, _, same) ↦ ([], unchanged e same refl)
      ]
  entries_added {s} (Step.authenticate us rs e) =
      ([], ap (λ (x : State). x.current.ledger_entries) e ∙ sym (append-nil _))

  pub older : {s t : State} → Step s t → t.history ≡ s.current ∷ s.history
  older (Step.transfer _ _ _ _ _ _ _ _ _ _ _ e) = ap (λ (x : State). x.history) e
  older (Step.open_account _ _ _ _ _ _ _ e) = ap (λ (x : State). x.history) e
  older (Step.provision _ _ _ _ _ e) = ap (λ (x : State). x.history) e
  older (Step.authenticate _ _ e) = ap (λ (x : State). x.history) e

  -- The ledger only grows at its end: in every state that the system reaches, the entries of each
  -- committed version are the first entries of the current one, unchanged and in their order.
  pub append_only :
      {s : State}
      → Reach s
      → (v : Database) → Elem v (s.current ∷ s.history)
      → (es : List LedgerEntry) × (s.current.ledger_entries ≡ v.ledger_entries ++ es)
  append_only Reach.start v e = elim e [
    | inl same ↦ ([], ap (λ (x : Database). x.ledger_entries) (sym same) ∙ sym (append-nil _))
    | inr none_left ↦ absurd none_left
  ]
  append_only (Reach.later {s} {t} reached step) v e =
      let (es, added) = entries_added step in
      elim (subst (λ (vs : List Database). Elem v (t.current ∷ vs)) (older step) e) [
        | inl same ↦ ([], ap (λ (x : Database). x.ledger_entries) (sym same) ∙ sym (append-nil _))
        | inr old ↦
            let (fs, grown) = append_only reached v old in
            (fs ++ es, added ∙ rw grown (append_assoc v.ledger_entries fs es))
      ]
