-- ===== src/Tokens/Deposits/Claims.antt =====
-- The transaction of a deposit: how RegisterDeposit stores its type (tokens/service.go).
use flow_wallet_api.Prelude.{
  ◌≡◌, refl, sym, ap, subst, ◌∙◌, Bool, true, false, none, some, Text, arith,
}
use flow_wallet_api.Call.{
  returned, and_then-returned, of_result-returned, of_error-returned, returned_inj,
}
use flow_wallet_api.Transactions.Types.{
  TransactionType, unknown, general, ft_setup, ft_transfer, nft_setup, nft_transfer, Transaction,
}
use flow_wallet_api.Tokens.Types.{FlowTransaction, ServiceImpl}
use flow_wallet_api.Tokens.Store.{TokenTables, token_store}
use flow_wallet_api.Tokens.Deposits.{claim, claimed, claim_transaction}
use flow_wallet_api.Transactions.Sql.{
  TransactionTable, get_or_create_transaction, update_transaction,
}
use flow_wallet_api.Tokens.Deposits.Ledger.{IsLedger}

-- The types of a transaction from which RegisterDeposit makes, or which already is, a transfer of fungible tokens.
abbrev pub claimable : TransactionType → Bool
claimable unknown = true
claimable ft_transfer = true
claimable _ = false

module _ {W A E : Type 0} (svc : ServiceImpl W A E) (t : TokenTables W)
    (table : TransactionTable W E) (l : IsLedger t table svc.get_flow_transaction) where
  open svc use {get_flow_transaction}
  open l use {transfers, typed}

  -- The service over the SQL stores of tokens and of transactions.
  abbrev pub sql : ServiceImpl W A E
  sql = record svc {
    store = token_store t;
    txs = record svc.txs {
      get_or_create_transaction = get_or_create_transaction table;
      update_transaction = update_transaction table;
    };
  }

  claim_lem :
      (flow_tx : FlowTransaction A) (type : TransactionType) (x : Transaction E) (w : W)
      → claimable type ≡ true
      → typed w x.transaction_id ≡ some type
      → (claim sql flow_tx type x w).0 ≡ none
      → (transfers (claim sql flow_tx type x w).1 ≡ transfers w)
        × (typed (claim sql flow_tx type x w).1 x.transaction_id ≡ some ft_transfer)
  claim_lem flow_tx unknown x w c typed_as h =
      (l.update_keeps (claimed sql flow_tx x) w, l.update_types (claimed sql flow_tx x) w h)
  claim_lem flow_tx general x w c typed_as h = absurd (ground arith)
  claim_lem flow_tx ft_setup x w c typed_as h = absurd (ground arith)
  claim_lem flow_tx ft_transfer x w c typed_as h = (refl, typed_as)
  claim_lem flow_tx nft_setup x w c typed_as h = absurd (ground arith)
  claim_lem flow_tx nft_transfer x w c typed_as h = absurd (ground arith)

  -- Where FirstOrCreate has not failed, the stored transaction has the id after claim_transaction, and is a transfer
  -- of fungible tokens; no transfer is stored yet.
  pub claim_transaction_lem :
      (id stored_id : Text) (flow_tx : FlowTransaction A) (w w' : W)
      → (table.first_or_create id w).0.0 ≡ none
      → claimable (get_or_create_transaction table id w).0.transaction_type ≡ true
      → claim_transaction sql id w ≡ returned (flow_tx, stored_id) w'
      → (transfers w' ≡ transfers w) × (id ≡ stored_id) × (typed w' stored_id ≡ some ft_transfer)
  unfolding claim_transaction
  claim_transaction_lem id stored_id flow_tx w w' found c h =
      let x = (get_or_create_transaction table id w).0 in
      let w₁ = (get_or_create_transaction table id w).1 in
      let (read, w₂, given, h₁) = and_then-returned h in
      let (_, w₃, updated, h₂) = and_then-returned h₁ in
      let (same, ended) = returned_inj h₂ in
      let (_, at) = of_result-returned given in
      let (fine, after) = of_error-returned updated in
      let (kept, types) = l.chain_keeps id w₁ in
      let (named, at_first) = l.get_types id w found in
      let same_id : x.transaction_id ≡ stored_id = ap (λ p. p.1) same in
      let typed_as : typed w₂ x.transaction_id ≡ some x.transaction_type =
        subst (λ u. typed u x.transaction_id ≡ some x.transaction_type) at
          (subst (λ i. typed (get_flow_transaction id w₁).1 i ≡ some x.transaction_type) (sym named)
            (ap (λ f. f id) types ∙ at_first)) in
      let (still, claimed_as) = claim_lem read x.transaction_type x w₂ c typed_as fine in
      (
        ap transfers (sym ended)
            ∙ ap transfers (sym after)
            ∙ still
            ∙ ap transfers (sym at)
            ∙ kept
            ∙ l.get_keeps id w,
        sym named ∙ same_id,
        ap (λ u. typed u stored_id) (sym ended)
            ∙ ap (λ u. typed u stored_id) (sym after)
            ∙ ap (typed (claim sql read x.transaction_type x w₂).1) (sym same_id)
            ∙ claimed_as,
      )
