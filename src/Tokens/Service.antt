-- ===== src/Tokens/Service.antt =====
-- Setup, AddAccountToken, AccountTokens, Details, and the lists and look-ups of transfers (tokens/service.go), and the
-- handler for new accounts (tokens/account_events.go).
use flow_wallet_api.Prelude.{
  Bool, Option, List, [], ◌∷◌, ◌++◌, Text, bytes, contains, map, if◌then◌else◌,
}
use flow_wallet_api.Errors.{GoError, plain, error_text, Result, ok, err}
use flow_wallet_api.Call.{
  Call, pure, throw, lift, try, check, returned, failed, panicked, ◌>>=◌, ◌>>◌,
}
use flow_wallet_api.FlowHelpers.{validate_address, validate_transaction_id, format_address}
use flow_wallet_api.Jobs.Types.{Job}
use flow_wallet_api.Jobs.Pool.{PoolState}
use flow_wallet_api.Templates.{TokenType, not_specified, ft, nft, token_type_string, Token}
use flow_wallet_api.Transactions.Types.{
  TransactionType, unknown, ft_setup, nft_setup, Transaction, cadence_value,
}
use flow_wallet_api.Tokens.Types.{
  Details, AccountToken, TokenTransfer, TokenWithdrawal, TokenDeposit, withdrawal, deposit,
  ServiceImpl,
}

abbrev pub unsupported_token_type : Text → TokenType → GoError
unsupported_token_type prefix t =
    plain (prefix ++ (bytes "unsupported token type: " ++ token_type_string t))

-- The row that is stored for a token of an account.
abbrev pub account_token : Text → Token → AccountToken
account_token address token = record {
  account_address = address;
  token_name = token.name;
  token_address = token.address;
  token_type = token.token_type;
}

-- The switch in Setup; no other type of token sets the variable.
abbrev pub setup_type : TokenType → TransactionType
setup_type ft = ft_setup
setup_type nft = nft_setup
setup_type not_specified = unknown

-- The switches that let through the two types of token.
abbrev pub supported : {S : Type 0} → TokenType → Call S (Unit {0})
supported ft = pure tt
supported nft = pure tt
supported not_specified = throw (unsupported_token_type [] not_specified)

-- queryTypeWithdrawal and queryTypeDeposit; no other text is used.
pub data QueryType : Type 0 where
  withdrawals deposits : QueryType

module _ {W A E : Type 0} (svc : ServiceImpl W A E) where
  open svc use {store, txs, token_by_name, account_details, sdk, codec}

  -- A call on the world inside a pool.
  abbrev in_pool : {R : Type 0} → (W → R × W) → PoolState W → R × PoolState W
  in_pool f st = let (r, w) = f st.world in (r, record st { world = w })

  -- The end of Setup: the token is stored after success and for an account that has its vault already; the error
  -- of the store is only logged.
  abbrev pub remember_setup :
      Text
      → Token
      → Result (Option Job × Transaction E) × PoolState W
      → Result (Option Job × Transaction E) × PoolState W
  remember_setup address token (r, st) =
      let stored = record st {
        world = (store.insert_account_token (account_token address token) st.world).1;
      } in
      elim r [
        | ok created ↦ (ok created, stored)
        | err e ↦
            if contains (error_text e) (bytes "vault exists") then (err e, stored) else (err e, st)
      ]

  -- Setup
  pub setup : Bool → Text → Text → Call (PoolState W) (Option Job × Transaction E)
  setup sync token_name given = do
    address ← try (validate_address sdk given)
    _ ← lift (in_pool (account_details address))
    token ← lift (in_pool (token_by_name token_name))
    lift (λ st.
        remember_setup address token
          (txs.create sync address token.setup [] (setup_type token.token_type) st))

  -- AddAccountToken
  pub add_account_token : Text → Text → Call W (Unit {0})
  add_account_token token_name given = do
    address ← try (validate_address sdk given)
    token ← lift (token_by_name token_name)
    check (store.insert_account_token (account_token address token))

  -- AccountAddedHandler.Handle, which only logs an error.
  unfoldable pub handle_account_added : A → W → W
  unfolding add_account_token
  handle_account_added payload w =
      elim (add_account_token (bytes "FlowToken") (format_address sdk payload) w) [
        | returned u w' ↦ w'
        | failed e w' ↦ w'
        | panicked w' ↦ w'
      ]

  -- AccountTokens
  unfoldable pub account_tokens : Text → TokenType → Call W (List AccountToken)
  account_tokens given t = do
    address ← try (validate_address sdk given)
    lift (store.account_tokens address t)

  -- Details
  unfoldable pub token_details : Text → Text → Call W Details
  token_details token_name given = do
    address ← try (validate_address sdk given)
    token ← lift (token_by_name token_name)
    supported token.token_type
    balance ← lift (
        txs.execute_script token.balance
          (cadence_value (codec.new_address (sdk.hex_to_address address)) ∷ []))
    pure (record { token_name = token.name; balance = balance })

  abbrev run_list : QueryType → Text → Token → Call W (List TokenTransfer)
  run_list withdrawals address token = lift (store.token_withdrawals address token)
  run_list deposits address token = lift (store.token_deposits address token)

  -- listTransfers
  pub list_transfers : QueryType → Text → Text → Call W (List TokenTransfer)
  list_transfers query given token_name = do
    address ← try (validate_address sdk given)
    token ← lift (token_by_name token_name)
    supported token.token_type
    run_list query address token

  -- ListWithdrawals
  unfoldable pub list_withdrawals : Text → Text → Call W (List TokenWithdrawal)
  unfolding list_transfers
  list_withdrawals given token_name = do
    transfers ← list_transfers withdrawals given token_name
    pure (map withdrawal transfers)

  -- ListDeposits
  unfoldable pub list_deposits : Text → Text → Call W (List TokenDeposit)
  unfolding list_transfers
  list_deposits given token_name = do
    transfers ← list_transfers deposits given token_name
    pure (map deposit transfers)

  abbrev run_get : QueryType → Text → Text → Token → Call W TokenTransfer
  run_get withdrawals address id token = lift (store.token_withdrawal address id token)
  run_get deposits address id token = lift (store.token_deposit address id token)

  -- getTransfer
  pub get_transfer : QueryType → Text → Text → Text → Call W TokenTransfer
  get_transfer query given token_name transaction_id = do
    address ← try (validate_address sdk given)
    check (λ w. (validate_transaction_id sdk transaction_id, w))
    token ← lift (token_by_name token_name)
    supported token.token_type
    run_get query address transaction_id token

  -- GetWithdrawal
  unfoldable pub get_withdrawal : Text → Text → Text → Call W TokenWithdrawal
  unfolding get_transfer
  get_withdrawal given token_name transaction_id = do
    transfer ← get_transfer withdrawals given token_name transaction_id
    pure (withdrawal transfer)

  -- GetDeposit
  unfoldable pub get_deposit : Text → Text → Text → Call W TokenDeposit
  unfolding get_transfer
  get_deposit given token_name transaction_id = do
    transfer ← get_transfer deposits given token_name transaction_id
    pure (deposit transfer)
