-- ===== src/Transactions/Tests.antt =====
-- Examples for transactions/: a service whose client counts its calls and reports every transaction as
-- sealed, over a store that cannot read the transaction ab.
use flow_wallet_api.Prelude.{
  ℕ, suc, ◌≡◌, refl, true, false, none, some, List, [], ◌∷◌, Text, bytes, text_eq, has_prefix,
  if◌then◌else◌,
}
use flow_wallet_api.Errors.{GoError, error_text, not_found, plain, rpc_error, ok, err}
use flow_wallet_api.FlowHelpers.{
  Sdk, validate_address, validate_transaction_id, sealed, TransactionResult, Client, wait_for_seal,
}
use flow_wallet_api.Jobs.Types.{init, Job}
use flow_wallet_api.Jobs.Pool.{WorkerPool}
use flow_wallet_api.Transactions.Types.{general, Transaction, no_transaction}
use flow_wallet_api.Transactions.{
  Authorizer, Store, Service, transaction_job_type, transaction_not_found, after_wait, send_now,
  send_transaction, execute_transaction_job, details, create, create_sync, insert_and_send,
  new_transaction, build_flow_transaction, get_proposal_authorizer, assemble, sign, same_authorizer,
  add_arguments,
}
use flow_wallet_api.Transactions.Sending.{
  IsSealed, send_transaction-IsSealed, execute_transaction_job-IsSealed,
}
use flow_wallet_api.Transactions.Sync.{create_sealed-IsSealed}
use flow_wallet_api.Transactions.Lookup.{details_store_error}

abbrev pub sealed_result : TransactionResult ℕ
sealed_result = record { status = sealed; error = none; events = 7 ∷ [] }

abbrev pub client : Client ℕ ℕ ℕ
client = record {
  get_transaction = λ id n. (some (rpc_error not_found []), suc n);
  get_transaction_result = λ id n. (ok sealed_result, suc n);
  send_transaction = λ tx n. (none, suc n);
  latest_block_id = λ n. (ok [], n);
  execute_script = λ code arguments n. (ok [], n);
  sleep = λ n. n;
}

pub first_answer :
    (id : Text) (n : ℕ) → (wait_for_seal client 1 id n).0 ≡ some (some sealed_result, none)
unfolding wait_for_seal
first_answer id n = refl

abbrev pub stored : Transaction ℕ
stored = record no_transaction { transaction_id = bytes "cd"; transaction_type = general }

abbrev pub disk_error : GoError
disk_error = plain (bytes "disk")

abbrev pub transactions : Store ℕ ℕ
transactions = record {
  transactions = λ o n. (ok (stored ∷ []), n);
  transaction = λ id n. (if text_eq id (bytes "ab") then err disk_error else ok stored, n);
  transactions_for_account = λ t a o n. (ok (stored ∷ []), n);
  transaction_for_account = λ t a id n. (ok stored, n);
  insert_transaction = λ t n. (none, n);
  update_transaction = λ t n. (none, n);
}

abbrev pub pool : {W : Type 0} → WorkerPool W
pool = record {
  store = record {
    jobs = λ o n. (ok [], n);
    job = λ id n. (err disk_error, n);
    insert_job = λ j n. (none, j, n);
    update_job = λ j n. (none, j, n);
    accept_job = λ grace j n. (none, j, n);
    schedulable_jobs = λ a r o n. (ok [], n);
    status = λ n. (ok [], n);
  };
  capacity = 2;
  worker_count = 1;
  max_job_error_count = 1;
  db_job_poll_interval = 30;
  accepted_grace_period = 100;
  re_schedulable_grace_period = 50;
  executors = λ t. none;
  notification_config = record { job_status_webhook_url = none };
  system_service = none;
  marshal = λ r. ok r.result;
  post = λ url body n. (ok 200, n);
  select_stop = λ n. false;
  elapsed = λ m n. 0;
  itoa = λ n. n ∷ [];
}

-- A chain with one account.
pub data Account : Type 0 where
  service_account : Account

pub only_account : (a : Account) → service_account ≡ a
only_account service_account = refl

pub plain_hex : has_prefix (bytes "1") (bytes "0x") ≡ false
unfolding has_prefix
plain_hex = refl

abbrev pub sdk : Sdk Account
sdk = record {
  hex_to_address = λ t. service_account;
  address_hex = λ a. bytes "1";
  is_valid = λ a. true;
  decode_hex = λ t. some t;
  id_hex = λ b. b;
  hex_round_trip = only_account;
  hex_has_no_prefix = λ a. plain_hex;
}

abbrev pub admin : Authorizer Account
admin = record { address = service_account; key_index = 0; sequence_number = 0; signer = 0 }

abbrev pub service : Service ℕ Account ℕ ℕ
service = record {
  store = transactions;
  km = record {
    admin_authorizer = λ n. (ok admin, n);
    admin_proposal_key = λ n. (ok admin, n);
    user_authorizer = λ a n. (ok admin, n);
  };
  fc = client;
  wp = pool;
  sdk = sdk;
  builder = record {
    draft = λ block proposer payer limit code. limit;
    add_argument = λ v tx. ok tx;
    add_authorizer = λ a tx. tx;
    sign_payload = λ a tx. ok tx;
    sign_envelope = λ a tx. ok tx;
    tx_id = λ tx. bytes "cd";
    encode = λ tx. tx ∷ [];
    decode = λ t. ok 9999;
  };
  codec = record { decode = λ t. ok t; marshal = λ n. ok (n ∷ []) };
  patience = record {
    rounds = λ id n. 1;
    answers = λ id n. ((some sealed_result, none), first_answer id n);
  };
  admin_address = bytes "0x1";
  take = λ n. n;
}

send_transaction-IsSealed_example :
    IsSealed service stored (send_transaction service stored 0).1.events
unfolding send_transaction send_now after_wait
send_transaction-IsSealed_example = send_transaction-IsSealed service stored 0 refl

abbrev job : Job
job = record {
  id = 1;
  job_type = transaction_job_type;
  state = init;
  error_message = [];
  errors = [];
  result = [];
  transaction_id = bytes "cd";
  exec_count = 0;
  created_at = 0;
  updated_at = 0;
  should_send_notification = false;
  attributes = [];
}

execute_transaction_job-IsSealed_example :
    (t : Transaction ℕ) × (events : List ℕ) × (ok stored ≡ ok t) × IsSealed service t events
unfolding execute_transaction_job send_transaction send_now after_wait text_eq
execute_transaction_job-IsSealed_example = execute_transaction_job-IsSealed service job 0 refl

details_store_error_example :
    (text_eq (bytes "disk") (bytes "record not found") ≡ true
      → (details service (bytes "ab") 0).0 ≡ err transaction_not_found)
    × ((r : TransactionResult ℕ)
        → text_eq (bytes "disk") (bytes "record not found") ≡ false
        → ok sealed_result ≡ ok r
        → (details service (bytes "ab") 0).0 ≡ ok (record no_transaction { events = r.events }))
unfolding text_eq validate_transaction_id error_text
details_store_error_example = details_store_error service (bytes "ab") 0 disk_error refl refl

abbrev sent : Transaction ℕ
sent = record no_transaction {
  transaction_id = bytes "cd";
  transaction_type = general;
  proposer_address = bytes "1";
  flow_transaction = 9999 ∷ [];
  events = 7 ∷ [];
}

-- Create with sync set, of a transaction without arguments.
create_sealed-IsSealed_example :
    (t : Transaction ℕ) × (u v : ℕ) × ((new_transaction service (bytes "1") [] [] general 0).0
      ≡ ok t)
    × ((transactions.insert_transaction t u).0 ≡ none)
    × (sent ≡ (send_transaction service t v).1)
    × IsSealed service t sent.events
unfolding create insert_and_send create_sync new_transaction build_flow_transaction
    get_proposal_authorizer assemble sign same_authorizer add_arguments send_transaction send_now
    after_wait validate_address has_prefix text_eq
create_sealed-IsSealed_example =
    create_sealed-IsSealed service (bytes "1") [] [] general sent 0 refl
