-- ===== src/Accounts/Creation/Tests.antt =====
-- Examples for the creation of accounts.
use flow_wallet_api.Prelude.{
  ℕ, ◌≡◌, refl, true, false, Option, none, [], Text, bytes, text_eq, has_prefix,
}
use flow_wallet_api.Errors.{ok}
use flow_wallet_api.Call.{panicked, and_then, of_result, of_error, try, modify}
use flow_wallet_api.FlowHelpers.{wait_for_seal, on_answer}
use flow_wallet_api.Jobs.Types.{Job, init}
use flow_wallet_api.Transactions.Tests.{service_account}
use flow_wallet_api.Transactions.{Authorizer}
use flow_wallet_api.Transactions.Tests as Transactions
use flow_wallet_api.Keys.Types.{no_storable, AccountKey, Private}
use flow_wallet_api.Keys.Manager.Tests.{on_chain}
use flow_wallet_api.Accounts.Creation.{
  clones_from, uint32, create_account, creation_of, send_creation, send_and_await, store_account,
  account_with, execute_account_create_job,
}
use flow_wallet_api.Accounts.Creation.Stored.{
  Outcome, IsCreated, create_account-IsCreated, create_account_refused,
}
use flow_wallet_api.Accounts.Types.{Account}
use flow_wallet_api.Accounts.Service.{account_create_job_type}
use flow_wallet_api.Accounts.Tests.{service}

abbrev created : Account
created = account_with (service true) service_account no_storable (on_chain 5 false)

create_account-IsCreated_example : IsCreated (service true) created
unfolding create_account creation_of send_creation send_and_await store_account and_then of_result
    of_error try modify wait_for_seal on_answer text_eq has_prefix
create_account-IsCreated_example =
    create_account-IsCreated (service true) created (bytes "cd") 0 2 refl

abbrev job : Job
job = record {
  id = 1;
  job_type = account_create_job_type;
  state = init;
  error_message = [];
  errors = [];
  result = [];
  transaction_id = [];
  exec_count = 0;
  created_at = 0;
  updated_at = 0;
  should_send_notification = false;
  attributes = [];
}

create_account_refused_example :
    ((key : AccountKey) × (private : Private) × (payer : Authorizer Transactions.Account) × (u
        v : ℕ)
      × (((service false).km.generate_default u).0 ≡ ok (key, private))
      × (((service false).km.admin_authorizer v).0 ≡ ok payer)
      × Outcome
          (service false)
          ((service false).builder.create_account
            (clones_from 0 (uint32 (service false).cfg.default_account_key_count) key)
            payer.address)
          none)
    × (◌≡◌ {A = Option (Account × Text)} none none
        → (execute_account_create_job (service false) job 0).1 ≡ panicked 0)
unfolding create_account creation_of and_then of_result try modify text_eq
create_account_refused_example = create_account_refused (service false) none job 0 0 refl refl
