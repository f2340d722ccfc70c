-- ===== src/Tokens/Deposits/Repeated.antt =====
-- RegisterDeposit for a deposit that was registered before (tokens/service.go), over the SQL store of tokens.
use flow_wallet_api.Prelude.{
  ◌≡◌, refl, sym, ap, ap₂, subst, ◌∙◌, true, Option, none, some, List, Text, find_by,
}
use flow_wallet_api.Errors.{ok}
use flow_wallet_api.Call.{
  returned, final, and_then-returned, of_result-returned, of_error-returned, try-returned,
  returned_inj, final-and_then, final-of_result, final-of_error, final-try,
}
use flow_wallet_api.Templates.{ft, Token}
use flow_wallet_api.Transactions.Types.{TransactionType, ft_transfer, Transaction}
use flow_wallet_api.Accounts.Types.{Account}
use flow_wallet_api.Tokens.Types.{TokenTransfer, FlowTransaction, ServiceImpl}
use flow_wallet_api.Tokens.Store.{TokenTables, selects, token_store, token_to_transfer_type}
use flow_wallet_api.Tokens.Service.{account_token}
use flow_wallet_api.Tokens.Deposits.{
  deposit_amount, claim, claimed, claim_transaction, store_unless_found, register_deposit,
}
use flow_wallet_api.Transactions.Sql.{TransactionTable, get_or_create_transaction}
use flow_wallet_api.Tokens.Deposits.Ledger.{IsLedger}
use flow_wallet_api.Tokens.Deposits.Halves.{
  deposit_query, lookup_lem, after_found_keeps, after_lookup_holds,
}
use flow_wallet_api.Tokens.Deposits.Claims.{claimable, sql, claim_transaction_lem}

module _ {W A E : Type 0} (svc : ServiceImpl W A E) (t : TokenTables W)
    (table : TransactionTable W E) (l : IsLedger t table svc.get_flow_transaction) where
  open svc use {get_flow_transaction}
  open l use {transfers, typed}

  abbrev rows_and_types : W → List TokenTransfer × (Text → Option TransactionType)
  rows_and_types w = (transfers w, typed w)

  same_pair :
      (v w : W)
      → (transfers v ≡ transfers w) × (typed v ≡ typed w)
      → rows_and_types v ≡ rows_and_types w
  same_pair v w (rows, types) = ap₂ (λ a b. (a, b)) rows types

  claim_kept :
      (flow_tx : FlowTransaction A) (type : TransactionType) (x : Transaction E) (w : W)
      → type ≡ ft_transfer
      → claim (sql svc t table l) flow_tx type x w ≡ (none, w)
  claim_kept flow_tx type x w e = rw e refl

  -- A second look at the transaction changes no row.
  claim_again :
      (id : Text) (w : W)
      → (table.first_or_create id w).0.0 ≡ none
      → typed w id ≡ some ft_transfer
      → rows_and_types (final (claim_transaction (sql svc t table l) id w)) ≡ rows_and_types w
  unfolding claim_transaction
  claim_again id w found typed_as =
      let x = (get_or_create_transaction table id w).0 in
      let w₁ = (get_or_create_transaction table id w).1 in
      let (kind, types) = l.get_reads id w ft_transfer found typed_as in
      let read = same_pair w₁ w (l.get_keeps id w, types) in
      let asked : rows_and_types (get_flow_transaction id w₁).1 ≡ rows_and_types w =
        same_pair (get_flow_transaction id w₁).1 w₁ (l.chain_keeps id w₁) ∙ read in
      final-and_then rows_and_types (rows_and_types w) _ _
        (ap rows_and_types (final-of_result (get_flow_transaction id w₁)) ∙ asked)
        λ flow_tx s given.
          let (_, at) = of_result-returned given in
          let here : rows_and_types s ≡ rows_and_types w = ap rows_and_types (sym at) ∙ asked in
          let same = claim_kept flow_tx x.transaction_type x s kind in
          final-and_then rows_and_types (rows_and_types w) _ _
            (ap rows_and_types (
                final-of_error (claim (sql svc t table l) flow_tx x.transaction_type x s)
                ∙ ap (λ p. p.1) same)
              ∙ here)
            λ u s' updated.
              let (_, after) = of_error-returned updated in
              ap rows_and_types (sym after ∙ ap (λ p. p.1) same) ∙ here

  claim_transaction_id :
      (id stored_id : Text) (flow_tx : FlowTransaction A) (w w' : W)
      → (table.first_or_create id w).0.0 ≡ none
      → claim_transaction (sql svc t table l) id w ≡ returned (flow_tx, stored_id) w'
      → id ≡ stored_id
  unfolding claim_transaction
  claim_transaction_id id stored_id flow_tx w w' found h =
      let (_, _, _, h₁) = and_then-returned h in
      let (_, _, _, h₂) = and_then-returned h₁ in
      sym (l.get_types id w found).0 ∙ ap (λ p. p.1) (returned_inj h₂).0

  -- The transaction is a transfer of fungible tokens, and a row is there for the deposit.
  abbrev pub IsRegistered : Text → Text → Token → W → Type 0
  IsRegistered id recipient token w =
      (x : TokenTransfer) × (typed w id ≡ some ft_transfer)
      × (find_by (selects (deposit_query recipient id token ft_transfer) (typed w)) (transfers w)
          ≡ some x)

  register_deposit-IsRegistered :
      (token : Token) (id : Text) (recipient : Account) (text : Text) (u : Unit {0}) (w w' : W)
      → token_to_transfer_type token ≡ ok ft_transfer
      → (table.first_or_create id w).0.0 ≡ none
      → claimable (get_or_create_transaction table id w).0.transaction_type ≡ true
      → register_deposit (sql svc t table l) token id recipient text w ≡ returned u w'
      → IsRegistered id recipient.address token w'
  unfolding register_deposit store_unless_found token_store
  register_deposit-IsRegistered token id recipient text u w w' kind found c h =
      let (amount, w₁, tried, h₁) = and_then-returned h in
      let ((flow_tx, stored_id), w₂, claimed, h₂) = and_then-returned h₁ in
      let (_, w₃, inserted, h₃) = and_then-returned h₂ in
      let (_, at) = try-returned tried in
      let (_, after) = of_error-returned inserted in
      let found_here = subst (λ v. (table.first_or_create id v).0.0 ≡ none) at found in
      let claimable_here =
        subst (λ v. claimable (get_or_create_transaction table id v).0.transaction_type ≡ true) at
          c in
      let (_, named, typed_as) =
        claim_transaction_lem svc t table l id stored_id flow_tx w₁ w₂ found_here claimable_here
          claimed in
      let (_, types) = l.token_keeps (account_token recipient.address token) w₂ in
      let typed₃ : typed w₃ stored_id ≡ some ft_transfer =
        ap (λ v. typed v stored_id) (sym after) ∙ ap (λ f. f stored_id) types ∙ typed_as in
      let (x, retyped, held) =
        after_lookup_holds svc t table l stored_id recipient.address flow_tx amount token
          ft_transfer u w₃ w' _
          (lookup_lem svc t table l stored_id recipient.address token ft_transfer w₃ kind) typed₃
          h₃ in
      subst (λ i. IsRegistered i recipient.address token w') (sym named)
        (x, ap (λ f. f stored_id) retyped ∙ typed₃, held)

  registered_keeps :
      (token : Token) (id : Text) (recipient : Account) (text : Text) (w : W)
      → token_to_transfer_type token ≡ ok ft_transfer
      → (table.first_or_create id w).0.0 ≡ none
      → IsRegistered id recipient.address token w
      → transfers (final (register_deposit (sql svc t table l) token id recipient text w))
        ≡ transfers w
  unfolding register_deposit store_unless_found token_store
  registered_keeps token id recipient text w kind found (x, typed_as, held) =
      final-and_then transfers (transfers w) _ _
        (ap transfers (final-try (deposit_amount (sql svc t table l) token.token_type text) w))
        λ amount s tried.
          let (_, at) = try-returned tried in
          let found_here = subst (λ v. (table.first_or_create id v).0.0 ≡ none) at found in
          let typed_here : typed s id ≡ some ft_transfer =
            ap (λ v. typed v id) (sym at) ∙ typed_as in
          let again = claim_again id s found_here typed_here in
          let claimed_rows = again ∙ ap rows_and_types (sym at) in
          final-and_then transfers (transfers w) _ _ (ap (λ p. p.0) claimed_rows)
            λ (flow_tx, stored_id) s₂ claimed.
              let same_id = claim_transaction_id id stored_id flow_tx s s₂ found_here claimed in
              let here : rows_and_types s₂ ≡ rows_and_types w =
                ap (λ r. rows_and_types (final r)) (sym claimed) ∙ claimed_rows in
              let k = account_token recipient.address token in
              let kept : rows_and_types (t.first_or_create k s₂).1 ≡ rows_and_types w =
                same_pair _ _ (l.token_keeps k s₂) ∙ here in
              final-and_then transfers (transfers w) _ _
                (ap transfers (final-of_error (t.first_or_create k s₂)) ∙ ap (λ p. p.0) kept)
                λ u s₃ inserted.
                  let (_, after) = of_error-returned inserted in
                  let there : rows_and_types s₃ ≡ rows_and_types w =
                    ap rows_and_types (sym after) ∙ kept in
                  after_found_keeps svc t table l stored_id recipient.address flow_tx amount token
                    (deposit_query recipient.address stored_id token ft_transfer) x s₃ _
                    (lookup_lem svc t table l stored_id recipient.address token ft_transfer s₃ kind)
                    (subst
                      (λ i.
                        find_by
                          (selects (deposit_query recipient.address i token ft_transfer) (typed s₃))
                          (transfers s₃)
                        ≡ some x)
                      same_id
                      (ap
                          (λ p.
                            find_by
                              (selects (deposit_query recipient.address id token ft_transfer) p.1)
                              p.0)
                          there
                        ∙ held))
                  ∙ ap (λ p. p.0) there

  -- A deposit of fungible tokens is stored once, over the SQL stores of tokens and of transactions:
  -- after RegisterDeposit has returned without an error, another one for the same token,
  -- transaction and recipient, whatever its amount, stores no transfer, however it ends, if the
  -- transaction was of unknown type or a transfer of fungible tokens, FirstOrCreate has found or
  -- created it both times without the error that the code drops, and the database behaves as
  -- documented.
  pub register_deposit_once :
      (token : Token) (id : Text) (recipient : Account) (text again : Text) (u : Unit {0})
      (w w' : W)
      → token.token_type ≡ ft
      → (table.first_or_create id w).0.0 ≡ none
      → (table.first_or_create id w').0.0 ≡ none
      → claimable (get_or_create_transaction table id w).0.transaction_type ≡ true
      → register_deposit (sql svc t table l) token id recipient text w ≡ returned u w'
      → transfers (final (register_deposit (sql svc t table l) token id recipient again w'))
        ≡ transfers w'
  unfolding token_to_transfer_type
  register_deposit_once token id recipient text again u w w' fungible found found' c h =
      let kind : token_to_transfer_type token ≡ ok ft_transfer = rw fungible refl in
      registered_keeps token id recipient again w' kind found'
        (register_deposit-IsRegistered token id recipient text u w w' kind found c h)
