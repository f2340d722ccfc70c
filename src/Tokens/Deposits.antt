-- ===== src/Tokens/Deposits.antt =====
-- Deposits: RegisterDeposit (tokens/service.go) and the handler of chain events (tokens/chain_events.go).
pub mod Ledger
pub mod Claims
pub mod Halves
pub mod Repeated
pub mod Duplicates
pub mod Tests
use flow_wallet_api.Prelude.{
  ℕ, Bool, true, not, Option, none, some, List, [], ◌∷◌, ◌++◌, Text, bytes, contains, get_elem?,
  if◌then◌else◌,
}
use flow_wallet_api.Errors.{GoError, error_text, Result, ok, err}
use flow_wallet_api.Call.{
  Run, Call, pure, throw, lift, try, deref, check, returned, failed, panicked, of_result, of_error,
  and_then, ◌>>=◌, ◌>>◌,
}
use flow_wallet_api.FlowHelpers.{hex_string, format_address}
use flow_wallet_api.Templates.{TokenType, not_specified, ft, nft, Token}
use flow_wallet_api.Transactions.Types.{TransactionType, unknown, ft_transfer, Transaction}
use flow_wallet_api.Accounts.Types.{Account}
use flow_wallet_api.Tokens.Types.{TokenTransfer, FlowTransaction, ServiceImpl}
use flow_wallet_api.Tokens.Service.{unsupported_token_type, account_token}

-- A flow.Event, by its type, its transaction's id, and the texts of its fields.
pub record Event : Type 0 where
  pub event_type : Text
  pub transaction_id : Text
  pub fields : Text → Option Text

module _ {W A E : Type 0} (svc : ServiceImpl W A E) where
  open svc use {store, txs, get_flow_transaction, account_details, sdk, codec}

  -- The switch of RegisterDeposit: the amount and the NFT's id.
  abbrev pub deposit_amount : TokenType → Text → Result (Text × ℕ)
  deposit_amount ft text = ok (text, 0)
  deposit_amount nft text = elim (codec.parse_uint text) [ err e ↦ err e | ok id ↦ ok ([], id) ]
  deposit_amount not_specified text = err (unsupported_token_type [] not_specified)

  -- A transaction of unknown type becomes a transfer of fungible tokens, whatever the token.
  abbrev pub claimed : FlowTransaction A → Transaction E → Transaction E
  claimed flow_tx t = record t {
    transaction_type = ft_transfer;
    proposer_address = format_address sdk flow_tx.proposer;
  }

  abbrev pub claim : FlowTransaction A → TransactionType → Transaction E → W → Option GoError × W
  claim flow_tx unknown t w = txs.update_transaction (claimed flow_tx t) w
  claim flow_tx _ t w = (none, w)

  -- The first half of RegisterDeposit: the transaction on the chain, and the id of the stored one.
  pub claim_transaction : Text → Call W (FlowTransaction A × Text)
  claim_transaction id w =
      let (t, w') = txs.get_or_create_transaction id w in
      (do
        flow_tx ← lift (get_flow_transaction id)
        check (claim flow_tx t.transaction_type t)
        pure (flow_tx, t.transaction_id))
        w'

  -- The transfer that RegisterDeposit stores.
  abbrev pub deposit_transfer : Text → Text → A → Text × ℕ → Token → TokenTransfer
  deposit_transfer id recipient sender amount token = record {
    transaction_id = id;
    recipient_address = recipient;
    sender_address = format_address sdk sender;
    ft_amount = amount.0;
    nft_id = amount.1;
    token_name = token.name;
    created_at = 0;
    updated_at = 0;
  }

  pub store_deposit : Text → Text → FlowTransaction A → Text × ℕ → Token → Call W (Unit {0})
  store_deposit id recipient flow_tx amount token = do
    sender ← deref (get_elem? flow_tx.authorizers 0)
    check (store.insert_token_transfer (deposit_transfer id recipient sender amount token))

  -- The second half, with the answer of TokenDeposit: a deposit that is there already is not stored again.
  pub after_lookup :
      Text
      → Text
      → FlowTransaction A
      → Text × ℕ
      → Token
      → Result TokenTransfer × W
      → Run W (Unit {0})
  after_lookup id recipient flow_tx amount token (ok t, w) = returned tt w
  after_lookup id recipient flow_tx amount token (err e, w) =
      let stored = store_deposit id recipient flow_tx amount token w in
      if not (contains (error_text e) (bytes "record not found")) then failed e w else stored

  pub store_unless_found : Text → Text → FlowTransaction A → Text × ℕ → Token → Call W (Unit {0})
  store_unless_found id recipient flow_tx amount token w =
      after_lookup id recipient flow_tx amount token (store.token_deposit recipient id token w)

  -- RegisterDeposit
  pub register_deposit : Token → Text → Account → Text → Call W (Unit {0})
  register_deposit token id recipient text = do
    amount ← try (deposit_amount token.token_type text)
    (flow_tx, stored_id) ← claim_transaction id
    check (store.insert_account_token (account_token recipient.address token))
    store_unless_found stored_id recipient.address flow_tx amount token

  -- A missing field is a nil value, whose String panics.
  abbrev pub amount_or_id : Event → Option Text
  amount_or_id event = elim (event.fields (bytes "amount")) [
    | some amount ↦ some amount
    | none ↦ event.fields (bytes "id")
  ]

  -- Errors end the handler.
  abbrev pub ignore : {R : Type 0} → Run W R → Run W (Unit {0})
  ignore (returned a w) = returned tt w
  ignore (failed e w) = returned tt w
  ignore (panicked w) = panicked w

  -- ChainEventHandler.handleDeposit. `token_from_event` is the template service's TokenFromEvent.
  unfoldable pub handle_deposit : (Text → W → Option (Result Token × W)) → Event → Call W (Unit {0})
  unfolding register_deposit claim_transaction store_unless_found after_lookup store_deposit
  handle_deposit token_from_event event w = elim (token_from_event event.event_type w) [
    | none ↦ panicked w
    | some found ↦ ignore (
        (do
          token ← λ w'. of_result found
          to ← deref (event.fields (bytes "to"))
          account ← lift (account_details (hex_string to))
          text ← deref (amount_or_id event)
          register_deposit token event.transaction_id account text)
          w)
  ]

  -- ChainEventHandler.Handle
  unfoldable pub handle_event : (Text → W → Option (Result Token × W)) → Event → Call W (Unit {0})
  unfolding handle_deposit
  handle_event token_from_event event =
      if contains event.event_type (bytes "Deposit")
      then handle_deposit token_from_event event
      else pure tt
