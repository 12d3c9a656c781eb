-- ===== src/Tests/Setup.antt =====
-- A server that behaves as documented, as functions on lists, and a small history: a boundary account, a
-- USER account, and a funding between them.
use ledgerlock.Tests.Sorting.{sorted-SameMembers, sorted-Ascending, sorted}
use ledgerlock.Ledger.Effects.{transferred}
use ledgerlock.Ledger.Guards.{credit_of, result_of, debit_of, record_of}
use ledgerlock.Ledger.Create.{run_until, Transactions}
use ledgerlock.Accounts.{system_account_label, create_account, ensure_system_account}
use ledgerlock.Database.{
  clash_transaction, account_by_id, transaction_by_key, clash_entry, ledger_entry_validator,
  insert_many, clash_account, transaction_validator, perform, empty_database, perform_all, Database,
}
use ledgerlock.System.{init, commit, Step, Reach, State}
use ledgerlock.Ledger.{
  write, check_funds, validate_participants, header, open_session, Transfer, Draw, apply_transfer,
}
use ledgerlock.Models.{
  sign_must_match_direction, ledger_entry_document, signed_amount_for, create_entry, is_upper,
  is_key_char, is_idempotency_key, is_transaction_document, transaction_document, is_currency_code,
  TransactionKind, AccountType, AccountStatus, Account,
}
use ledgerlock.Errors.{ok}
use ledgerlock.Base.{
  drop, take, ◌++◌, if◌then◌else◌, all, same_text, neg, any, map, ◌≡◌, update_first, codes, keep,
  Text, first, pos, inl, arith, refl, some, none, ◌∷◌, [],
}
use ledgerlock.Mongo.{insert_checked, Mongo, distinct}

instance unfoldable pub server : Mongo
server = record {
  find_one = λ p l. first p l;
  find = λ p l. keep p l;
  update_one = λ p f l. update_first p f l;
  insert_one = λ valid clash a l. insert_checked valid clash a l;
  group =
      λ same key row l. map (λ k. row k (keep (λ a. same k (key a)) l)) (distinct same (map key l));
  lookup = λ join other l. map (λ a. (a, keep (join a) other)) l;
  currency_pattern = is_currency_code;
  find_page = λ key limit skip l. take limit (drop skip (sorted key l));
  upsert_one = λ p a l. if any p l then l else l ++ a ∷ [];
  upsert_one_set = λ p a l. refl;
  find_one_first = λ p l. refl;
  find_keep = λ p l. refl;
  update_one_first = λ p f l. refl;
  insert_one_checked = λ valid clash a l. refl;
  find_page_sorted =
      λ key limit skip l. (sorted key l, sorted-Ascending key l, sorted-SameMembers key l, refl);
  group_rows = λ same key row l. refl;
  lookup_rows = λ join other l. refl;
  currency_pattern_code = λ t h. h;
}

instance unfoldable pub driver : Transactions
driver = record {
  with_transaction = λ callback run rest. run_until callback 0 run rest;
  with_transaction_runs = λ callback run rest. refl;
}

abbrev pub usd : Text
usd = codes "USD"

abbrev pub boundary : Account
boundary = record {
  id = 1;
  owner_id = none;
  currency = usd;
  status = AccountStatus.active;
  account_type = AccountType.system;
  label = system_account_label usd;
  created_at = 100;
  updated_at = 100;
  debit_serialisation_counter = 0;
}

abbrev pub wallet : Account
wallet = record {
  id = 2;
  owner_id = some 10;
  currency = usd;
  status = AccountStatus.active;
  account_type = AccountType.user;
  label = codes "wallet";
  created_at = 101;
  updated_at = 101;
  debit_serialisation_counter = 0;
}

abbrev pub deposit : Transfer
deposit = record {
  idempotency_key = codes "deposit-1";
  source_account_id = 1;
  destination_account_id = 2;
  amount_minor = pos 500;
  currency = usd;
  description = [];
  kind = TransactionKind.funding;
  submitted_by = none;
}

abbrev pub payment : Transfer
payment = record {
  idempotency_key = codes "payment-1";
  source_account_id = 2;
  destination_account_id = 1;
  amount_minor = pos 200;
  currency = usd;
  description = codes "rent";
  kind = TransactionKind.transfer;
  submitted_by = some 10;
}

abbrev pub deposit_draw : Draw
deposit_draw = record {
  transaction_id = 20;
  debit_entry_id = 30;
  credit_entry_id = 31;
  transaction_time = 102;
  debit_time = 102;
  credit_time = 102;
}

abbrev pub payment_draw : Draw
payment_draw = record {
  transaction_id = 21;
  debit_entry_id = 32;
  credit_entry_id = 33;
  transaction_time = 103;
  debit_time = 103;
  credit_time = 103;
}

abbrev pub provisioned : Database
provisioned = record empty_database { accounts = boundary ∷ [] }

abbrev pub opened : Database
opened = record empty_database { accounts = boundary ∷ wallet ∷ [] }

abbrev pub funded : Database
funded = record opened {
  transactions = header deposit deposit_draw ∷ [];
  ledger_entries = debit_of deposit deposit_draw ∷ credit_of deposit deposit_draw ∷ [];
}

abbrev pub paid : Database
paid = transferred payment payment_draw wallet funded

abbrev pub funded_state : State
funded_state = commit funded (commit opened (commit provisioned init))

pub provision_runs :
    ensure_system_account usd
      (record { account_id = 1; created_at = 100; updated_at = 100 })
      (λ x. x)
      empty_database
    ≡ ok (1, provisioned)
unfolding ensure_system_account server first is_currency_code perform insert_checked any
provision_runs = refl

open_runs :
    create_account 10 usd
      (codes "wallet")
      (record { account_id = 2; created_at = 101; updated_at = 101 })
      provisioned
    ≡ ok (wallet, opened)
unfolding create_account is_currency_code perform server insert_checked any clash_account
open_runs = refl

pub deposit_runs :
    apply_transfer 1 deposit deposit_draw (open_session opened)
    ≡ ok (
      result_of 1 deposit deposit_draw,
      record { view = funded; writes = record_of deposit deposit_draw },
    )
unfolding server apply_transfer transaction_by_key first validate_participants account_by_id
    same_text check_funds transaction_document is_transaction_document is_idempotency_key
    is_key_char is_upper is_currency_code all write perform insert_checked transaction_validator
    clash_transaction any create_entry signed_amount_for ledger_entry_document
    sign_must_match_direction insert_many ledger_entry_validator clash_entry neg
deposit_runs = refl

pub deposit_commits : perform_all (record_of deposit deposit_draw) opened ≡ ok funded
unfolding perform_all perform server insert_checked transaction_validator is_currency_code any
    insert_many ledger_entry_validator neg clash_entry
deposit_commits = refl

abbrev pub opened_state : State
opened_state = commit opened (commit provisioned init)

pub reached_opened : Reach opened_state
reached_opened =
    Reach.later
      (Reach.later Reach.start (
        Step.provision usd (record { account_id = 1; created_at = 100; updated_at = 100 }) 1
          provisioned provision_runs refl))
      (Step.open_account 10 usd (codes "wallet")
        (record { account_id = 2; created_at = 101; updated_at = 101 }) wallet opened open_runs
        refl)

pub deposit_step : Step opened_state funded_state
deposit_step =
    Step.transfer 1 deposit deposit_draw opened funded
      (
        result_of 1 deposit deposit_draw,
        record { view = funded; writes = record_of deposit deposit_draw },
      )
      (inl refl) (λ e. ground arith) deposit_runs tt deposit_commits refl

pub reached : Reach funded_state
reached = Reach.later reached_opened deposit_step
