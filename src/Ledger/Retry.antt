-- ===== src/Ledger/Retry.antt =====
-- What `create_transfer` returns and raises, over every schedule of runs.
use ledgerlock.Database.{transaction_by_key}
use ledgerlock.Models.{Transaction}
use ledgerlock.Ledger.{open_session, apply_transfer, Session, LedgerWriteResult, Transfer}
use ledgerlock.Mongo.{Mongo}
use ledgerlock.Base.{
  ◌⊎◌, ◌==◌, ◌≢◌, some_eq, sym, Bool-cases, ◌∙◌, ap, Bool, length, ◌+◌, ◌≡◌, Option, ℕ, List, inr,
  inl, arith, refl, suc, zero, false, true, some, none, ◌∷◌, [],
}
use ledgerlock.Ledger.Create.{
  Run, create_transfer, Transactions, raise_fault, callback, handle_driver_error, on_transient,
  run_until,
}
use ledgerlock.Errors.{
  raise_if_passed, raise_if, on_ok, write_conflict_error, rejected, Exc, Result, err, ok,
  operation_failure, connection_failure, duplicate_key, duplicate_submission_error,
}

-- The n-th run of a schedule.
abbrev pub nth_run : {R : Type 0} → R → List R → ℕ → Option R
nth_run run rest zero = some run
nth_run run [] (suc n) = none
nth_run run (next ∷ rest) (suc n) = nth_run next rest n

abbrev pub is_transient : {A : Type 0} → Result A → Bool
is_transient (err (operation_failure true)) = true
is_transient (err (connection_failure true)) = true
is_transient r = false

on_transient-true :
    {A : Type 0} (r later : Result A) → is_transient r ≡ true → on_transient r later ≡ later
on_transient-true r later h = ground arith

on_transient-false :
    {A : Type 0} (r later : Result A) → is_transient r ≡ false → on_transient r later ≡ r
on_transient-false r later h = ground arith

-- The runs before position `k` fail with the transient label.
abbrev pub AllTransient : {R A : Type 0} → (ℕ → R → Result A) → ℕ → R → List R → ℕ → Type 0
AllTransient callback n run rest zero = Unit
AllTransient callback n run [] (suc k) = is_transient (callback n run) ≡ true
AllTransient callback n run (next ∷ rest) (suc k) =
    (is_transient (callback n run) ≡ true) × AllTransient callback (suc n) next rest k

module _ {R A : Type 0} (callback : ℕ → R → Result A) where
  at_position : (n : ℕ) (x : R) → callback (n + 0) x ≡ callback n x
  at_position n x = ap (λ (k : ℕ). callback k x) (omega arith)

  next_position : (n k : ℕ) (x : R) → callback (suc n + k) x ≡ callback (n + suc k) x
  next_position n k x = ap (λ (k : ℕ). callback k x) (omega arith)

  same_run : (n : ℕ) (run x : R) → some run ≡ some x → callback n run ≡ callback (n + 0) x
  same_run n run x e = ap (callback n) (some_eq e) ∙ sym (at_position n x)

  -- A value comes from some run, at its position.
  pub run_until_ok :
      (n : ℕ) (run : R) (rest : List R) (a : A)
      → run_until callback n run rest ≡ ok a
      → (k : ℕ) × (x : R) × (nth_run run rest k ≡ some x) × (callback (n + k) x ≡ ok a)
  run_until_ok n run [] a h = (0, run, refl, at_position n run ∙ h)
  run_until_ok n run (next ∷ rest) a h = elim (Bool-cases (is_transient (callback n run))) [
    | inl y ↦
        let (k, x, at, e) =
          run_until_ok (suc n) next rest a (sym (on_transient-true (callback n run) _ y) ∙ h) in
        (suc k, x, at, sym (next_position n k x) ∙ e)
    | inr other ↦
        (0, run, refl, at_position n run ∙ sym (on_transient-false (callback n run) _ other) ∙ h)
  ]

  -- After `k` transient failures the outcome of the next run stands, if it is no such failure.
  pub run_until_settled :
      (n : ℕ) (run : R) (rest : List R) (k : ℕ) (x : R)
      → AllTransient callback n run rest k
      → nth_run run rest k ≡ some x
      → is_transient (callback (n + k) x) ≡ false
      → run_until callback n run rest ≡ callback (n + k) x
  run_until_settled n run [] zero x h at last = same_run n run x at
  run_until_settled n run [] (suc k) x h at last = absurd (cc)
  run_until_settled n run (next ∷ rest) zero x h at last =
      on_transient-false (callback n run) _ (ap is_transient (same_run n run x at) ∙ last)
      ∙ same_run n run x at
  run_until_settled n run (next ∷ rest) (suc k) x h at last =
      on_transient-true (callback n run) _ h.0
      ∙ run_until_settled (suc n) next rest k x h.1 at
          (ap is_transient (next_position n k x) ∙ last)
      ∙ next_position n k x

  -- Only transient failures until the deadline: the last one stands.
  pub run_until_last :
      (n : ℕ) (run : R) (rest : List R) (x : R)
      → AllTransient callback n run rest (length rest)
      → nth_run run rest (length rest) ≡ some x
      → run_until callback n run rest ≡ callback (n + length rest) x
  run_until_last n run [] x h at = same_run n run x at
  run_until_last n run (next ∷ rest) x h at =
      on_transient-true (callback n run) _ h.0
      ∙ run_until_last (suc n) next rest x h.1 at
      ∙ next_position n (length rest) x

zero_add : (k : ℕ) → 0 + k ≡ k
zero_add k = omega arith

ne_of_test : (a b : ℕ) → (a == b) ≡ false → a ≢ b
ne_of_test a b h e = ground arith

test_of_ne : (a b : ℕ) → a ≢ b → (a == b) ≡ false
test_of_ne a b h = ground arith

handle_ok : {A : Type 0} (r : Result A) (a : A) → handle_driver_error r ≡ ok a → r ≡ ok a
handle_ok r a h = ground arith

raise_fault_passed : (o : Option Exc) {u : Unit {0}} → raise_fault o ≡ ok u → o ≡ none
raise_fault_passed none h = refl
raise_fault_passed (some e) h = cc

module _ ⦃m : Mongo⦄ where
  -- The run that a result comes from.
  pub record CommittedBy (r : Transfer) (run : Run) (rest : List Run)
      (out : LedgerWriteResult × Session) : Type 0 where
    pub distinct_accounts : r.source_account_id ≢ r.destination_account_id
    pub position : ℕ
    pub committed : Run
    pub scheduled : nth_run run rest position ≡ some committed
    pub no_fault : committed.fault ≡ none
    pub applied :
        apply_transfer (position + 1) r committed.draw (open_session committed.snapshot) ≡ ok out

  callback_ok :
      (r : Transfer) (n : ℕ) (x : Run) (out : LedgerWriteResult × Session)
      → callback r n x ≡ ok out
      → (x.fault ≡ none) × (apply_transfer (n + 1) r x.draw (open_session x.snapshot) ≡ ok out)
  unfolding callback
  callback_ok r n x out h =
      on_ok (raise_fault x.fault) _ h λ _ passed rest. (raise_fault_passed x.fault passed, rest)

module _ ⦃m : Mongo⦄ ⦃t : Transactions⦄ where
  -- A transfer that returns was applied by one run of its schedule, on that run's snapshot, and its
  -- `attempts` is the number of runs up to it.
  pub create_transfer_ok :
      (r : Transfer) (run : Run) (rest : List Run) (out : LedgerWriteResult × Session)
      → create_transfer r run rest ≡ ok out
      → CommittedBy r run rest out
  unfolding create_transfer
  create_transfer_ok r run rest out h =
      on_ok (raise_if (r.source_account_id == r.destination_account_id) _) _ h λ _ passed handled.
        let (k, x, at, e) =
          run_until_ok (callback r) 0 run rest out
            (sym (t.with_transaction_runs (callback r) run rest) ∙ handle_ok _ out handled) in
        let (no_fault, applied) = callback_ok r (0 + k) x out e in
        record {
          distinct_accounts = ne_of_test _ _ (raise_if_passed _ _ passed);
          position = k;
          committed = x;
          scheduled = at;
          no_fault = no_fault;
          applied =
              ap (λ (j : ℕ). apply_transfer (j + 1) r x.draw (open_session x.snapshot))
                (sym (zero_add k))
              ∙ applied;
        }

  -- Between two different accounts, if every run before the deadline fails with a transient error, of
  -- the server or of the network, and the last of them with the server's, the call ends in
  -- WriteConflictError.
  pub create_transfer-contended :
      (r : Transfer) (run : Run) (rest : List Run) (last : Run)
      → r.source_account_id ≢ r.destination_account_id
      → AllTransient (callback r) 0 run rest (length rest)
      → nth_run run rest (length rest) ≡ some last
      → callback r (length rest) last ≡ err (operation_failure true)
      → create_transfer r run rest ≡ err (rejected write_conflict_error)
  unfolding create_transfer
  create_transfer-contended r run rest last ne h at failed =
      rw (test_of_ne _ _ ne, t.with_transaction_runs)
        (ap handle_driver_error (
          run_until_last (callback r) 0 run rest last h at
          ∙ ap (λ (j : ℕ). callback r j last) (zero_add (length rest))
          ∙ failed))

  create_transfer-settled :
      (r : Transfer) (run : Run) (rest : List Run) (k : ℕ) (x : Run)
      → r.source_account_id ≢ r.destination_account_id
      → AllTransient (callback r) 0 run rest k
      → nth_run run rest k ≡ some x
      → is_transient (callback r k x) ≡ false
      → create_transfer r run rest ≡ handle_driver_error (callback r k x)
  unfolding create_transfer
  create_transfer-settled r run rest k x ne h at last =
      rw (test_of_ne _ _ ne, t.with_transaction_runs)
        (ap handle_driver_error (
          run_until_settled (callback r) 0 run rest k x h at
            (ap (λ (j : ℕ). is_transient (callback r j x)) (zero_add k) ∙ last)
          ∙ ap (λ (j : ℕ). callback r j x) (zero_add k)))

  -- The run learns that its key was used: the server refuses the insert for a transaction that was
  -- committed meanwhile, or the run reads that transaction.
  abbrev pub KeyUsed : Transfer → Run → Type 0
  KeyUsed r x =
      (x.fault ≡ some duplicate_key)
      ⊎ ((x.fault ≡ none)
          × (u : Transaction) × (transaction_by_key r.idempotency_key x.snapshot ≡ some u))

  callback_used :
      (r : Transfer) (k : ℕ) (x : Run)
      → KeyUsed r x
      → (is_transient (callback r k x) ≡ false)
        × (handle_driver_error (callback r k x) ≡ err (rejected duplicate_submission_error))
  unfolding callback apply_transfer
  callback_used r k x (inl refused) = (rw refused refl, rw refused refl)
  callback_used r k x (inr (no_fault, u, found)) =
      (rw (no_fault, found) refl, rw (no_fault, found) refl)

  -- Between two different accounts, after any number of transient failures, a run whose key was used
  -- ends the call in DuplicateSubmissionError, whether it reads the other transaction or loses the
  -- race to it.
  pub create_transfer-duplicate :
      (r : Transfer) (run : Run) (rest : List Run) (k : ℕ) (x : Run)
      → r.source_account_id ≢ r.destination_account_id
      → AllTransient (callback r) 0 run rest k
      → nth_run run rest k ≡ some x
      → KeyUsed r x
      → create_transfer r run rest ≡ err (rejected duplicate_submission_error)
  create_transfer-duplicate r run rest k x ne h at used =
      let (last, handled) = callback_used r k x used in
      create_transfer-settled r run rest k x ne h at last ∙ handled
