-- ===== src/Accounts/Keys/Tests.antt =====
-- Examples for the keys of an account.
use flow_wallet_api.Prelude.{refl, true}
use flow_wallet_api.Call.{and_then, of_result, of_error, try}
use flow_wallet_api.Transactions.Tests.{service_account}
use flow_wallet_api.Accounts.Keys.{create_revoke_key_tx, revoke_key}
use flow_wallet_api.Accounts.Keys.Revoke.{IsRevoked, revoke_key-IsRevoked}
use flow_wallet_api.Accounts.Tests.{service, stored}

revoke_key-IsRevoked_example : IsRevoked (service true) service_account 1 0 stored
unfolding revoke_key create_revoke_key_tx and_then of_result of_error try
revoke_key-IsRevoked_example = revoke_key-IsRevoked (service true) service_account 1 stored 0 0 refl
