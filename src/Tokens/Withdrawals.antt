-- ===== src/Tokens/Withdrawals.antt =====
-- Withdrawals: createWithdrawal, its job executor, and CreateWithdrawal (tokens/service.go, tokens/jobs.go).
pub mod Stored
pub mod Tests
use flow_wallet_api.Prelude.{
  ℕ, Bool, true, not, Option, none, some, List, [], ◌∷◌, ◌++◌, Text, bytes, text_eq, if◌then◌else◌,
}
use flow_wallet_api.Errors.{GoError, invalid_job_type, wrap_after, Result, ok, err}
use flow_wallet_api.Call.{
  Run, Call, pure, throw, lift, try, check, returned, failed, on_return, of_result, of_error,
  and_then, ◌>>=◌, ◌>>◌,
}
use flow_wallet_api.FlowHelpers.{validate_address}
use flow_wallet_api.Jobs.Types.{Job}
use flow_wallet_api.Jobs.Pool.{PoolState, create_job, schedule}
use flow_wallet_api.Templates.{TokenType, not_specified, ft, nft, Token}
use flow_wallet_api.Transactions.Types.{
  TransactionType, ft_transfer, nft_transfer, Transaction, Argument, cadence_value,
}
use flow_wallet_api.Tokens.Types.{WithdrawalRequest, TokenTransfer, ServiceImpl}
use flow_wallet_api.Tokens.Service.{unsupported_token_type}

abbrev pub withdrawal_create_job_type : Text
withdrawal_create_job_type = bytes "withdrawal_create"

-- fmt.Errorf("...: %w", err), where a call fails.
unfoldable pub wrapped : {S A : Type 0} → Text → (S → Result A × S) → S → Result A × S
wrapped prefix f s =
    let (r, s') = f s in elim r [ ok a ↦ (ok a, s') | err e ↦ (err (wrap_after prefix e), s') ]

module _ {W A E : Type 0} (svc : ServiceImpl W A E) where
  open svc use {store, wp, txs, token_by_name, sdk, codec}

  -- The arguments and the type of the transaction.
  withdrawal_arguments :
      TokenType → Text → WithdrawalRequest → Result (List Argument × TransactionType)
  withdrawal_arguments not_specified recipient request =
      err (unsupported_token_type (bytes "createWithdrawal ") not_specified)
  withdrawal_arguments nft recipient request = ok (
    cadence_value (codec.new_address (sdk.hex_to_address recipient))
        ∷ cadence_value (codec.new_uint64 request.nft_id)
        ∷ [],
    nft_transfer,
  )
  withdrawal_arguments ft recipient request = elim (codec.new_ufix64 request.ft_amount) [
    | err e ↦ err e
    | ok amount ↦ ok (
      cadence_value amount ∷ cadence_value (codec.new_address (sdk.hex_to_address recipient)) ∷ [],
      ft_transfer,
    )
  ]

  -- The transfer that createWithdrawal stores.
  abbrev pub withdrawal_transfer : Text → Text → Text → WithdrawalRequest → Token → TokenTransfer
  withdrawal_transfer id sender recipient request token = record {
    transaction_id = id;
    recipient_address = recipient;
    sender_address = sender;
    ft_amount = request.ft_amount;
    nft_id = request.nft_id;
    token_name = token.name;
    created_at = 0;
    updated_at = 0;
  }

  -- createWithdrawal
  pub create_withdrawal : Text → WithdrawalRequest → Call W (Transaction E)
  create_withdrawal given request = do
    sender ← lift (
        wrapped (bytes "createWithdrawal sender validation error: ")
          λ w. (validate_address sdk given, w))
    recipient ← lift (
        wrapped (bytes "createWithdrawal recipient validation error: ")
          λ w. (validate_address sdk request.recipient, w))
    token ← lift (
        wrapped (bytes "createWithdrawal could not find token error: ")
          (token_by_name request.token_name))
    (arguments, type) ← try (withdrawal_arguments token.token_type recipient request)
    tx ← lift (txs.create_sync sender token.transfer arguments type)
    check (
        store.insert_token_transfer
          (withdrawal_transfer tx.transaction_id sender recipient request token))
    pure tx

  -- executeCreateWithdrawalJob
  pub execute_create_withdrawal_job : Job → W → Job × Run W (Unit {0})
  execute_create_withdrawal_job j w =
      if not (text_eq j.job_type withdrawal_create_job_type)
      then (j, failed invalid_job_type w)
      else (let j' = record j { should_send_notification = true } in
          on_return j' (
            (do
              (sender, request) ← try (codec.unmarshal j.attributes)
              tx ← create_withdrawal sender request
              pure (record j' { transaction_id = tx.transaction_id; result = tx.transaction_id }))
              w))

  -- CreateWithdrawal without sync.
  unfoldable pub create_withdrawal_job : Text → WithdrawalRequest → Call (PoolState W) Job
  create_withdrawal_job sender request = do
    attrs ← try (codec.marshal sender request)
    job ← lift (λ st.
        let (r, w) = create_job wp withdrawal_create_job_type [] attrs st.world in
        (r, record st { world = w }))
    λ st.
        let (e, job', st') = schedule wp job st in
        elim e [ none ↦ returned job' st' | some x ↦ failed x st' ]
