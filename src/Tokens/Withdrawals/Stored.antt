-- ===== src/Tokens/Withdrawals/Stored.antt =====
-- What createWithdrawal has done where it returns (tokens/service.go).
use flow_wallet_api.Prelude.{◌≡◌, refl, sym, subst, ◌∙◌, none, List, [], ◌∷◌, Text, arith, inl, inr}
use flow_wallet_api.Errors.{ok, ok_inj, Result, Result-cases}
use flow_wallet_api.Call.{
  returned, and_then-returned, of_result-returned, of_error-returned, try-returned, returned_inj,
}
use flow_wallet_api.FlowHelpers.{validate_address}
use flow_wallet_api.Templates.{TokenType, not_specified, ft, nft, Token}
use flow_wallet_api.Transactions.Types.{
  TransactionType, ft_transfer, nft_transfer, Transaction, Argument, cadence_value,
}
use flow_wallet_api.Tokens.Types.{WithdrawalRequest, TokenTransfer, ServiceImpl}
use flow_wallet_api.Tokens.Withdrawals.{
  wrapped, withdrawal_arguments, withdrawal_transfer, create_withdrawal,
}

wrapped_ok :
    {S A : Type 0} (prefix : Text) (f : S → Result A × S) (s : S) (a : A)
    → (wrapped prefix f s).0 ≡ ok a
    → (f s).0 ≡ ok a
unfolding wrapped
wrapped_ok prefix f s a h = elim (Result-cases (f s).0) [
  | inl (b, e) ↦ e ∙ (sym (rw (e, wrapped) refl) ∙ h)
  | inr (x, e) ↦ absurd (ground arith)
]

module _ {W A E : Type 0} (svc : ServiceImpl W A E) where
  open svc use {store, txs, token_by_name, sdk, codec}

  -- The arguments and the type of a transaction that transfers what is asked for to the recipient.
  pub data IsTransfer (recipient : Text) (request : WithdrawalRequest)
      : TokenType → List Argument → TransactionType → Type 0 where
    fungible :
        {amount : Text}
        → codec.new_ufix64 request.ft_amount ≡ ok amount
        → IsTransfer recipient request ft
            (cadence_value amount
              ∷ cadence_value (codec.new_address (sdk.hex_to_address recipient))
              ∷ [])
            ft_transfer
    unique :
        IsTransfer recipient request nft
          (cadence_value (codec.new_address (sdk.hex_to_address recipient))
            ∷ cadence_value (codec.new_uint64 request.nft_id)
            ∷ [])
          nft_transfer

  withdrawal_arguments-IsTransfer :
      (kind : TokenType) (recipient : Text) (request : WithdrawalRequest)
      (arguments : List Argument) (type : TransactionType)
      → withdrawal_arguments svc kind recipient request ≡ ok (arguments, type)
      → IsTransfer recipient request kind arguments type
  unfolding withdrawal_arguments
  withdrawal_arguments-IsTransfer not_specified recipient request arguments type h =
      absurd (ground arith)
  withdrawal_arguments-IsTransfer nft recipient request arguments type h =
      let same = ok_inj h in subst (λ p. IsTransfer recipient request nft p.0 p.1) same unique
  withdrawal_arguments-IsTransfer ft recipient request arguments type h =
      elim (Result-cases (codec.new_ufix64 request.ft_amount)) [
        | inr (x, e) ↦ absurd (ground arith)
        | inl (amount, e) ↦
            let same = ok_inj (sym (rw (e, withdrawal_arguments) refl) ∙ h) in
            subst (λ p. IsTransfer recipient request ft p.0 p.1) same (fungible e)
      ]

  -- Sender and recipient are valid addresses, the token is registered, the transaction is the one that was created for
  -- the token's transfer from the sender to the recipient, and the transfer between them is stored under its id.
  pub IsWithdrawn : Text → WithdrawalRequest → Transaction E → Type 0
  IsWithdrawn given request tx =
      (sender recipient : Text) × (token : Token) × (arguments : List Argument)
      × (type : TransactionType) × (row : TokenTransfer) × (u v x : W) × (validate_address sdk given
          ≡ ok sender)
      × (validate_address sdk request.recipient ≡ ok recipient)
      × ((token_by_name request.token_name u).0 ≡ ok token)
      × IsTransfer recipient request token.token_type arguments type
      × ((txs.create_sync sender token.transfer arguments type v).0 ≡ ok tx)
      × ((store.insert_token_transfer row x).0 ≡ none)
      × (row.transaction_id ≡ tx.transaction_id)
      × (row.sender_address ≡ sender)
      × (row.recipient_address ≡ recipient)
      × (row.ft_amount ≡ request.ft_amount)
      × (row.nft_id ≡ request.nft_id)
      × (row.token_name ≡ token.name)

  -- Where createWithdrawal returns a transaction, sender and recipient are valid addresses, the
  -- token is registered, the transaction was created for the sender with the token's transfer code,
  -- the arguments that its type asks for (amount and recipient, or recipient and id) and the
  -- transfer type of the token, and a transfer from the sender to the recipient with the amount,
  -- the id and the token's name is stored under the transaction's id.
  pub create_withdrawal-IsWithdrawn :
      (given : Text) (request : WithdrawalRequest) (tx : Transaction E) (w w' : W)
      → create_withdrawal svc given request w ≡ returned tx w'
      → IsWithdrawn given request tx
  unfolding create_withdrawal IsWithdrawn
  create_withdrawal-IsWithdrawn given request tx w w' h =
      let (sender, w₁, h₁, rest₁) = and_then-returned h in
      let (recipient, w₂, h₂, rest₂) = and_then-returned rest₁ in
      let (token, w₃, h₃, rest₃) = and_then-returned rest₂ in
      let ((arguments, type), w₄, h₄, rest₄) = and_then-returned rest₃ in
      let (made, w₅, h₅, rest₅) = and_then-returned rest₄ in
      let (_, w₆, h₆, rest₆) = and_then-returned rest₅ in
      let (same, _) = returned_inj rest₆ in
      let (built, _) = try-returned h₄ in
      let (created, _) = of_result-returned h₅ in
      let (stored, _) = of_error-returned h₆ in
      subst (IsWithdrawn given request) same (
        sender,
        recipient,
        token,
        arguments,
        type,
        withdrawal_transfer svc made.transaction_id sender recipient request token,
        w₂,
        w₄,
        w₅,
        wrapped_ok _ _ w sender (of_result-returned h₁).0,
        wrapped_ok _ _ w₁ recipient (of_result-returned h₂).0,
        wrapped_ok _ _ w₂ token (of_result-returned h₃).0,
        withdrawal_arguments-IsTransfer token.token_type recipient request arguments type built,
        created,
        stored,
        refl,
        refl,
        refl,
        refl,
        refl,
        refl,
      )
