-- ===== src/System/Conserved.antt =====
-- In each currency the SYSTEM account mirrors the USER accounts.
use ledgerlock.System.Totals.{total-transferred, total-insert, total, holds}
use ledgerlock.Accounts.Laws.{ensure_system_account_ok, create_account_ok}
use ledgerlock.System.Invariant.{Reach-Inv}
use ledgerlock.Balance.{get_available_balance_minor}
use ledgerlock.Accounts.{get_system_account, is_system_for}
use ledgerlock.Ledger.Effects.{perform_all-transfer}
use ledgerlock.Ledger.Applied.{apply_transfer_ok}
use ledgerlock.Ledger.{open_session}
use ledgerlock.System.Sound.{Inv}
use ledgerlock.Mongo.{Mongo}
use ledgerlock.Balance.Laws.{balance-compute_balance, balance_at}
use ledgerlock.Database.{perform_all, Write, Database}
use ledgerlock.Models.{LedgerEntry, is_user, ObjectId, Account}
use ledgerlock.Errors.{ok}
use ledgerlock.System.{State, Step, Reach}
use ledgerlock.Base.{
  keep_single, neg_part, pos_part, +ℤ_parts, neg_parts, eq_of_parts, ◌&&◌, fun_ext, ap, sym, neg,
  subst, some_eq, ◌∙◌, Bool-cases, ◌≤◌, int_laws, ◌+ℤ◌, length, first, List, same_text, ◌≡◌, Bool,
  keep, ℤ, sum_by, pos, inr, inl, arith, refl, some, ◌∷◌, [], Text,
}

module _ ⦃m : Mongo⦄ where
  -- No step changes the total of a currency.
  total-Step : {s t : State} (c : Text) → Step s t → Inv s → total c t.current ≡ total c s.current
  total-Step {s} c (Step.transfer attempts r d snapshot db out old ne run same done e) inv =
      let a = apply_transfer_ok attempts r d (open_session snapshot) out run in
      let (_, next_is) =
        perform_all-transfer r d a.source s.current db
          (subst (λ (ws : List Write). perform_all ws s.current ≡ ok db) a.written done) in
      ap (λ (x : State). total c x.current) e
      ∙ ap (total c) next_is
      ∙ total-transferred a s.current (inv.grows snapshot old) inv.sound c
  total-Step {s} c (Step.open_account owner currency label d account db run e) inv =
      let (_, fresh, same) = create_account_ok owner currency label d s.current account db run in
      ap (λ (x : State). total c x.current) e
      ∙ ap (total c) same
      ∙ total-insert c s.current account inv.sound fresh
  total-Step {s} c (Step.provision currency d i db run e) inv =
      ap (λ (x : State). total c x.current) e
      ∙ elim (ensure_system_account_ok currency d s.current i db run) [
        | inl same ↦ ap (total c) same
        | inr (n, fresh, same) ↦ ap (total c) same ∙ total-insert c s.current n inv.sound fresh
      ]
  total-Step {s} c (Step.authenticate us rs e) inv = ap (λ (x : State). total c x.current) e

  total-Reach : {s : State} (c : Text) → Reach s → total c s.current ≡ pos 0
  unfolding keep sum_by
  total-Reach c Reach.start = refl
  total-Reach c (Reach.later reached step) =
      total-Step c step (Reach-Inv reached) ∙ total-Reach c reached

-- A USER account of the currency.
abbrev pub is_user_in : Text → Account → Bool
is_user_in c a = is_user a.account_type && same_text c a.currency

by_type :
    (c : Text) (g : Account → ℤ) (l : List Account)
    → sum_by g (keep (holds c) l)
      ≡ sum_by g (keep (is_system_for c) l) +ℤ sum_by g (keep (is_user_in c) l)
unfolding keep sum_by
by_type c g [] = omega int_laws
by_type c g (a ∷ l) = elim (Bool-cases (same_text c a.currency)) [
  | inl y ↦ elim (Bool-cases (is_user a.account_type)) [
    | inl u ↦ rw (y, u, by_type c g l) (omega int_laws)
    | inr n ↦ rw (y, n, by_type c g l) (omega int_laws)
  ]
  | inr o ↦ elim (Bool-cases (is_user a.account_type)) [
    | inl u ↦ rw (o, u) (by_type c g l)
    | inr n ↦ rw (o, n) (by_type c g l)
  ]
]

mirror : (b rest : ℤ) → b +ℤ pos 0 +ℤ rest ≡ pos 0 → b ≡ neg rest
mirror b rest h = eq_of_parts b (neg rest) (
    omega (
      arith,
      neg_parts rest,
      +ℤ_parts b (pos 0),
      +ℤ_parts (b +ℤ pos 0) rest,
      ap pos_part h,
      ap neg_part h,
    ))

module _ ⦃m : Mongo⦄ where
  -- The service's balances at the entries.
  abbrev balances : List LedgerEntry → ObjectId → ℤ
  balances es i = get_available_balance_minor i es

  abbrev sums : List LedgerEntry → ObjectId → ℤ
  sums es i = balance_at i es

  available : (es : List LedgerEntry) → balances es ≡ sums es
  unfolding get_available_balance_minor
  available es = fun_ext (λ (i : ObjectId). balance-compute_balance i es)

  system_first :
      (c : Text) (db : Database) (b : Account)
      → get_system_account c db ≡ some b
      → first (is_system_for c) db.accounts ≡ some b
  unfolding get_system_account
  system_first c db b found = sym (m.find_one_first (is_system_for c) db.accounts) ∙ found

  only_boundary :
      (c : Text) (l : List Account) (b : Account)
      → length (keep (is_system_for c) l) ≤ 1
      → first (is_system_for c) l ≡ some b
      → keep (is_system_for c) l ≡ b ∷ []
  only_boundary c l b once found = elim (keep_single (is_system_for c) l once) [
    | inl (missing, _) ↦ absurd (cc (sym missing ∙ found))
    | inr (a, here, all_kept) ↦ all_kept ∙ ap (λ (x : Account). x ∷ []) (some_eq (sym here ∙ found))
  ]

  -- In every state that the system reaches, the balance of the SYSTEM account of a currency is minus
  -- the sum of the balances of all USER accounts in that currency.
  pub boundary_mirrors_users :
      {s : State}
      → Reach s
      → (c : Text) (b : Account) → get_system_account c s.current ≡ some b
      → get_available_balance_minor b.id s.current.ledger_entries
        ≡ neg (
            sum_by
              (λ (a : Account). get_available_balance_minor a.id s.current.ledger_entries)
              (m.find (is_user_in c) s.current.accounts))
  unfolding sum_by
  boundary_mirrors_users {s} reached c b found =
      let es = s.current.ledger_entries in
      let l = s.current.accounts in
      let parts = sym (by_type c (λ (a : Account). balance_at a.id es) l) ∙ total-Reach c reached in
      let boundary =
        only_boundary c l b ((Reach-Inv reached).sound.one_boundary c)
          (system_first c s.current b found) in
      ap (λ (f : ObjectId → ℤ). f b.id) (available es)
      ∙ mirror (balance_at b.id es)
          (sum_by (λ (a : Account). balance_at a.id es) (keep (is_user_in c) l))
          (subst
            (λ (k : List Account).
              sum_by (λ (a : Account). balance_at a.id es) k
                +ℤ sum_by (λ (a : Account). balance_at a.id es) (keep (is_user_in c) l)
              ≡ pos 0)
            boundary parts)
      ∙ ap (λ (k : List Account). neg (sum_by (λ (a : Account). balance_at a.id es) k))
          (sym (m.find_keep (is_user_in c) l))
      ∙ ap (λ (f : ObjectId → ℤ). neg (sum_by (λ (a : Account). f a.id) (m.find (is_user_in c) l)))
          (sym (available es))
