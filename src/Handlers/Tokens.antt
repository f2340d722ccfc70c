-- ===== src/Handlers/Tokens.antt =====
-- handlers/tokens.go and handlers/tokens_func.go: the HTTP handlers for the tokens of accounts.
use flow_wallet_api.Prelude.{Bool, Option, List, Text, bytes}
use flow_wallet_api.Errors.{Result}
use flow_wallet_api.Jobs.Types.{Job}
use flow_wallet_api.Jobs.Types as Jobs
use flow_wallet_api.Templates.{TokenType}
use flow_wallet_api.Transactions.Types.{Transaction, JsonResponse, to_json_response}
use flow_wallet_api.Tokens.Types.{
  Details, WithdrawalRequest, AccountToken, TokenWithdrawal, TokenDeposit,
}
use flow_wallet_api.Handlers.Writing.{
  Writer, HttpRequest, var, is_sync, respond, with_body, refuse_some, respond_created,
}

-- The interface tokens.Service, as the handlers call it.
pub record TokenService (W E : Type 0) : Type 0 where
  pub setup : Bool → Text → Text → W → Result (Option Job × Option (Transaction E)) × W
  pub account_tokens : Text → TokenType → W → Result (List AccountToken) × W
  pub details : Text → Text → W → Result Details × W
  pub create_withdrawal :
      Bool → Text → WithdrawalRequest → W → Result (Option Job × Option (Transaction E)) × W
  pub list_withdrawals : Text → Text → W → Result (List TokenWithdrawal) × W
  pub list_deposits : Text → Text → W → Result (List TokenDeposit) × W
  pub get_withdrawal : Text → Text → Text → W → Result TokenWithdrawal × W
  pub get_deposit : Text → Text → Text → W → Result TokenDeposit × W

-- The JSON of requests and responses.
pub record TokenJson (E : Type 0) : Type 0 where
  pub decode : Text → Result WithdrawalRequest
  pub job : Jobs.JsonResponse → Text
  pub transaction : JsonResponse E → Text
  pub tokens : List AccountToken → Text
  pub details : Details → Text
  pub withdrawals : List TokenWithdrawal → Text
  pub withdrawal : TokenWithdrawal → Text
  pub deposits : List TokenDeposit → Text
  pub deposit : TokenDeposit → Text

module _ {W E : Type 0} (service : TokenService W E) (json : TokenJson E) where
  job_text : Job → Text
  job_text j = json.job (Jobs.to_json_response j)

  transaction_text : Transaction E → Text
  transaction_text t = json.transaction (to_json_response t)

  -- SetupFunc: none is a panic.
  pub setup_func : HttpRequest → W → Writer → Option (Writer × W)
  setup_func r w =
      respond_created (is_sync r) job_text transaction_text
        (service.setup (is_sync r) (var r (bytes "tokenName")) (var r (bytes "address")) w)

  -- MakeAccountTokensFunc
  pub make_account_tokens_func : TokenType → HttpRequest → W → Writer → Writer × W
  make_account_tokens_func t r w =
      respond 200 json.tokens (service.account_tokens (var r (bytes "address")) t w)

  -- DetailsFunc
  pub details_func : HttpRequest → W → Writer → Writer × W
  details_func r w =
      respond 200 json.details
        (service.details (var r (bytes "tokenName")) (var r (bytes "address")) w)

  -- CreateWithdrawalFunc, once the request is decoded.
  withdraw : HttpRequest → WithdrawalRequest → W → Writer → Option (Writer × W)
  withdraw r b w = respond_created (is_sync r) job_text transaction_text (
      service.create_withdrawal (is_sync r) (var r (bytes "address"))
        (record b { token_name = var r (bytes "tokenName") }) w)

  -- CreateWithdrawalFunc: none is a panic.
  unfoldable pub create_withdrawal_func : HttpRequest → W → Writer → Option (Writer × W)
  unfolding withdraw job_text transaction_text
  create_withdrawal_func r w rw =
      with_body json.decode r (refuse_some rw) (λ b w. withdraw r b w rw) w

  -- ListWithdrawalsFunc
  pub list_withdrawals_func : HttpRequest → W → Writer → Writer × W
  list_withdrawals_func r w =
      respond 200 json.withdrawals
        (service.list_withdrawals (var r (bytes "address")) (var r (bytes "tokenName")) w)

  -- GetWithdrawalFunc
  pub get_withdrawal_func : HttpRequest → W → Writer → Writer × W
  get_withdrawal_func r w = respond 200 json.withdrawal (
      service.get_withdrawal (var r (bytes "address")) (var r (bytes "tokenName"))
        (var r (bytes "transactionId")) w)

  -- ListDepositsFunc
  pub list_deposits_func : HttpRequest → W → Writer → Writer × W
  list_deposits_func r w =
      respond 200 json.deposits
        (service.list_deposits (var r (bytes "address")) (var r (bytes "tokenName")) w)

  -- GetDepositFunc
  pub get_deposit_func : HttpRequest → W → Writer → Writer × W
  get_deposit_func r w = respond 200 json.deposit (
      service.get_deposit (var r (bytes "address")) (var r (bytes "tokenName"))
        (var r (bytes "transactionId")) w)
