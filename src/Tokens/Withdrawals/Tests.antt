-- ===== src/Tokens/Withdrawals/Tests.antt =====
-- Examples for withdrawals: a world that counts the stored transfers.
use flow_wallet_api.Prelude.{ℕ, suc, refl, none, [], bytes, has_prefix}
use flow_wallet_api.Errors.{ok, err, record_not_found}
use flow_wallet_api.Call.{and_then, of_result, of_error, try}
use flow_wallet_api.FlowHelpers.{validate_address}
use flow_wallet_api.Templates.{ft, Token}
use flow_wallet_api.Transactions.Types.{Transaction, no_transaction}
use flow_wallet_api.Transactions.Tests.{Account, service_account, sdk, pool}
use flow_wallet_api.Accounts.Types.{no_account}
use flow_wallet_api.Tokens.Types.{WithdrawalRequest, ServiceImpl}
use flow_wallet_api.Tokens.Withdrawals.{wrapped, withdrawal_arguments, create_withdrawal}
use flow_wallet_api.Tokens.Withdrawals.Stored.{IsWithdrawn, create_withdrawal-IsWithdrawn}

abbrev token : Token
token = record {
  id = 0;
  name = bytes "T";
  name_lower_case = bytes "t";
  address = bytes "0x1";
  setup = [];
  transfer = [];
  balance = [];
  token_type = ft;
}

abbrev sent : Transaction ℕ
sent = record no_transaction { transaction_id = bytes "cd" }

abbrev service : ServiceImpl ℕ Account ℕ
service = record {
  store = record {
    account_tokens = λ a k w. (ok [], w);
    insert_account_token = λ k w. (none, w);
    insert_token_transfer = λ x w. (none, suc w);
    token_withdrawals = λ a k w. (ok [], w);
    token_withdrawal = λ a id k w. (err record_not_found, w);
    token_deposits = λ a k w. (ok [], w);
    token_deposit = λ a id k w. (err record_not_found, w);
  };
  get_flow_transaction = λ id w. (ok (record { proposer = service_account; authorizers = [] }), w);
  wp = pool;
  txs = record {
    create = λ sync a code arguments type st. (ok (none, sent), st);
    create_sync = λ a code arguments type w. (ok sent, w);
    execute_script = λ code arguments w. (ok [], w);
    get_or_create_transaction = λ id w. (sent, w);
    update_transaction = λ x w. (none, w);
  };
  token_by_name = λ name w. (ok token, w);
  account_details = λ a w. (ok no_account, w);
  sdk = sdk;
  codec = record {
    new_address = λ a. [];
    new_ufix64 = λ t. ok t;
    new_uint64 = λ n. [];
    parse_uint = λ t. ok 7;
    marshal = λ s r. ok [];
    unmarshal = λ t. err record_not_found;
  };
}

abbrev request : WithdrawalRequest
request = record {
  token_name = bytes "T";
  recipient = bytes "0x1";
  ft_amount = bytes "1.0";
  nft_id = 0;
}

create_withdrawal-IsWithdrawn_example : IsWithdrawn service (bytes "1") request sent
unfolding create_withdrawal wrapped withdrawal_arguments validate_address has_prefix and_then
    of_result of_error try
create_withdrawal-IsWithdrawn_example =
    create_withdrawal-IsWithdrawn service (bytes "1") request sent 0 1 refl
