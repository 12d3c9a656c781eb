-- ===== src/Tests/Witnesses.antt =====
-- The theorems at concrete inputs.
use ledgerlock.System.Bank.{Step-Move}
use ledgerlock.System.Moves.{Move, view_of}
use ledgerlock.Reconciliation.Thorough.{reconcile_thorough, IsClean, same_currency, same_group}
use ledgerlock.System.Conserved.{boundary_mirrors_users, is_user_in}
use ledgerlock.System.Bounds.{balance_bounds, Within}
use ledgerlock.Reconciliation.Groups.{has_header}
use ledgerlock.Ledger.Refused.{apply_transfer-short}
use ledgerlock.Mongo.{distinct, insert_checked}
use ledgerlock.System.Summed.{compute_balance_totals}
use ledgerlock.Ledger.Effects.{moved}
use ledgerlock.Reconciliation.Healthy.{gather_report-Reach}
use ledgerlock.System.Transfers.{reads_both_sides, apply_transfer-moves}
use ledgerlock.System.Safety.{used_once, append_only, no_overdraft}
use ledgerlock.Ledger.Guards.{record_of, result_of}
use ledgerlock.Accounts.{get_system_account, is_system_for}
use ledgerlock.Reconciliation.{reconcile, signed_amount, gather_report}
use ledgerlock.Balance.{
  balance_pipeline, on_account, balance_row, get_available_balance_minor, compute_balance,
}
use ledgerlock.Ledger.Readback.{Entries}
use ledgerlock.Ledger.Complete.{apply_transfer_total, Payable}
use ledgerlock.Ledger.{Transfer, open_session, Session, header, apply_transfer, LedgerWriteResult}
use ledgerlock.Ledger.Retry.{create_transfer-contended, create_transfer-duplicate, AllTransient}
use ledgerlock.Ledger.Create.{
  get_entries_for_transaction, callback, Run, get_transaction, create_transfer,
}
use ledgerlock.Database.{
  transaction_by_id, transaction_by_key, clash_entry, ledger_entry_validator, insert_many,
  clash_transaction, transaction_validator, perform, increment_counter, account_by_id, perform_all,
}
use ledgerlock.Models.{
  is_debit, is_credit, is_user, Account, is_upper, is_key_char, is_idempotency_key,
  is_transaction_document, is_currency_code, ObjectId, Transaction, LedgerEntry,
}
use ledgerlock.Errors.{
  connection_failure, duplicate_key, duplicate_submission_error, insufficient_funds_error,
  operation_failure, write_conflict_error, rejected, err, ok,
}
use ledgerlock.Base.{
  ◌&&◌, All, update_first, sum_by, all, neg, any, first, codes, ◌+ℤ◌, ◌≤◌, same_text, keep, ◌+◌,
  ◌++◌, ◌≡◌, length, ℕ, List, ◌≤ℤ◌, pos, inr, inl, arith, refl, true, some, none, ◌∷◌, [],
}
use ledgerlock.Tests.Setup.{
  deposit_step, reached_opened, deposit_draw, deposit, driver, boundary, reached, wallet,
  payment_draw, funded, opened, payment, server, paid, usd,
}

wallet_found : account_by_id 2 funded ≡ some wallet
unfolding account_by_id server first
wallet_found = refl

no_overdraft_example : pos 0 ≤ℤ get_available_balance_minor 2 funded.ledger_entries
no_overdraft_example = no_overdraft reached 2 wallet wallet_found refl

append_only_example :
    (es : List LedgerEntry) × (funded.ledger_entries ≡ opened.ledger_entries ++ es)
append_only_example = append_only reached opened (inr (inl refl))

used_once_example :
    (length (
        server.find
          (λ (t : Transaction). same_text (codes "deposit-1") t.idempotency_key)
          funded.transactions)
      ≤ 1)
    × (length (server.find (is_system_for usd) funded.accounts) ≤ 1)
used_once_example = used_once reached (codes "deposit-1") usd

gather_report-Reach_example :
    ((gather_report funded 200).healthy ≡ true)
    × ((gather_report funded 200).balanced ≡ true)
    × ((gather_report funded 200).net_signed_minor ≡ pos 0)
    × ((gather_report funded 200).negative_user_accounts ≡ [])
    × ((gather_report funded 200).total_entries
        ≡ (gather_report funded 200).total_transactions
          + (gather_report funded 200).total_transactions)
gather_report-Reach_example = gather_report-Reach reached 200

abbrev pub payment_out : LedgerWriteResult × Session
payment_out = (
  result_of 2 payment payment_draw,
  record { view = paid; writes = increment_counter 2 ∷ record_of payment payment_draw },
)

abbrev conflicting : Run
conflicting = record {
  snapshot = opened;
  draw = payment_draw;
  fault = some (operation_failure true);
}

abbrev pub settled : Run
settled = record { snapshot = funded; draw = payment_draw; fault = none }

payable : Payable payment payment_draw funded
unfolding server transaction_by_key account_by_id first is_transaction_document is_idempotency_key
    is_key_char is_upper is_currency_code all same_text any clash_transaction clash_entry
    get_available_balance_minor compute_balance balance_pipeline balance_row keep distinct sum_by
    neg ◌+ℤ◌
payable = record {
  source = wallet;
  destination = boundary;
  key_unused = refl;
  participants = record {
    source_found = refl;
    destination_found = refl;
    source_active = refl;
    destination_active = refl;
    source_currency = refl;
    destination_currency = refl;
  };
  well_formed = refl;
  covered = λ _. ground arith;
  new_header = refl;
  new_debit = refl;
  new_credit = refl;
  two_ids = refl;
}

pub payment_runs :
    (n : ℕ)
    → apply_transfer n payment payment_draw (open_session funded)
      ≡ ok (result_of n payment payment_draw, payment_out.1)
unfolding update_first payable
payment_runs n = apply_transfer_total n payment payment_draw funded payable

apply_transfer_total_example :
    apply_transfer 2 payment payment_draw (open_session funded) ≡ ok payment_out
unfolding update_first payable
apply_transfer_total_example = apply_transfer_total 2 payment payment_draw funded payable

payment_commits : perform_all payment_out.1.writes funded ≡ ok paid
unfolding perform_all perform server insert_checked transaction_validator is_currency_code any
    clash_transaction same_text insert_many ledger_entry_validator neg clash_entry
payment_commits = refl

payment_created : create_transfer payment conflicting (settled ∷ []) ≡ ok payment_out
unfolding create_transfer update_first neg driver callback
payment_created = rw (payment_runs 2) refl

apply_transfer-moves_example :
    (paid.transactions ≡ funded.transactions ++ header payment payment_draw ∷ [])
    × ((i : ObjectId)
        → get_available_balance_minor i paid.ledger_entries
          ≡ get_available_balance_minor i funded.ledger_entries +ℤ moved payment i)
apply_transfer-moves_example =
    apply_transfer-moves 2 payment payment_draw funded funded paid payment_out (payment_runs 2)
      payment_commits

header_found : get_transaction 20 funded ≡ some (header deposit deposit_draw)
unfolding get_transaction transaction_by_id server first
header_found = refl

reads_both_sides_example :
    Entries (header deposit deposit_draw) (get_entries_for_transaction 20 funded)
reads_both_sides_example = reads_both_sides reached 20 (header deposit deposit_draw) header_found

abbrev unplugged : Run
unplugged = record {
  snapshot = opened;
  draw = payment_draw;
  fault = some (connection_failure true);
}

cut_off : AllTransient (callback payment) 0 unplugged (conflicting ∷ []) 1
unfolding callback
cut_off = (refl, tt)

conflict_last : callback payment 1 conflicting ≡ err (operation_failure true)
unfolding callback
conflict_last = refl

create_transfer-contended_example :
    create_transfer payment unplugged (conflicting ∷ []) ≡ err (rejected write_conflict_error)
create_transfer-contended_example =
    create_transfer-contended payment unplugged (conflicting ∷ []) conflicting (λ e. ground arith)
      cut_off refl conflict_last

abbrev outrun : Run
outrun = record { snapshot = funded; draw = payment_draw; fault = some duplicate_key }

cut_off_once : AllTransient (callback payment) 0 unplugged (outrun ∷ []) 1
unfolding callback
cut_off_once = (refl, tt)

create_transfer-duplicate_example :
    create_transfer payment unplugged (outrun ∷ []) ≡ err (rejected duplicate_submission_error)
create_transfer-duplicate_example =
    create_transfer-duplicate payment unplugged (outrun ∷ []) 1 outrun (λ e. ground arith)
      cut_off_once refl (inl refl)

compute_balance_totals_example :
    ((compute_balance 2 funded.ledger_entries).total_credited_minor
      ≡ sum_by
          (λ (e : LedgerEntry). e.amount_minor)
          (keep (λ e. on_account 2 e && is_credit e.direction) funded.ledger_entries))
    × ((compute_balance 2 funded.ledger_entries).total_debited_minor
        ≡ sum_by
            (λ (e : LedgerEntry). e.amount_minor)
            (keep (λ e. on_account 2 e && is_debit e.direction) funded.ledger_entries))
    × ((compute_balance 2 funded.ledger_entries).balance_minor
        ≡ (compute_balance 2 funded.ledger_entries).total_credited_minor
          +ℤ neg (compute_balance 2 funded.ledger_entries).total_debited_minor)
    × ((compute_balance 2 funded.ledger_entries).entry_count
        ≡ length (keep (on_account 2) funded.ledger_entries))
compute_balance_totals_example = compute_balance_totals 2 reached

abbrev too_much : Transfer
too_much = record payment { amount_minor = pos 900 }

not_covered : ¬ (pos 900 ≤ℤ get_available_balance_minor 2 funded.ledger_entries)
unfolding server get_available_balance_minor compute_balance balance_pipeline balance_row distinct
    keep sum_by neg ◌+ℤ◌
not_covered h = ground arith

apply_transfer-short_example :
    apply_transfer 1 too_much payment_draw (open_session funded)
    ≡ err (rejected insufficient_funds_error)
unfolding payable
apply_transfer-short_example =
    apply_transfer-short 1 too_much payment_draw funded wallet boundary payable.key_unused
      payable.participants refl not_covered

boundary_found : get_system_account usd funded ≡ some boundary
unfolding get_system_account server first same_text
boundary_found = refl

boundary_mirrors_users_example :
    get_available_balance_minor 1 funded.ledger_entries
    ≡ neg (
        sum_by
          (λ (a : Account). get_available_balance_minor a.id funded.ledger_entries)
          (server.find (is_user_in usd) funded.accounts))
boundary_mirrors_users_example = boundary_mirrors_users reached usd boundary boundary_found

balance_bounds_example :
    Within 9_223_372_036_854_775_807 (get_available_balance_minor 2 funded.ledger_entries)
balance_bounds_example =
    balance_bounds reached (omega arith, tt) 9_223_372_036_854_775_807 (omega arith) 2

Step-Move_example : Move (view_of opened) (view_of funded)
Step-Move_example = Step-Move reached_opened deposit_step

funded_healthy : (reconcile funded 200).healthy ≡ true
unfolding reconcile
funded_healthy = (gather_report-Reach reached 200).0

reconcile_thorough_example :
    (sum_by signed_amount funded.ledger_entries ≡ pos 0)
    × All (λ e. any (has_header e) funded.transactions ≡ true) funded.ledger_entries
    × All (λ e. IsClean (keep (same_group e) funded.ledger_entries)) funded.ledger_entries
    × All
        (λ e. sum_by signed_amount (keep (same_currency e) funded.ledger_entries) ≡ pos 0)
        funded.ledger_entries
    × All
        (λ (a : Account). pos 0 ≤ℤ get_available_balance_minor a.id funded.ledger_entries)
        (keep (λ (a : Account). is_user a.account_type) funded.accounts)
    × ((reconcile funded 200).total_entries ≡ length funded.ledger_entries)
    × ((reconcile funded 200).total_transactions ≡ length funded.transactions)
reconcile_thorough_example = reconcile_thorough funded 200 funded_healthy
