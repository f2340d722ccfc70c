-- ===== src/Tokens/Deposits/Duplicates.antt =====
-- RegisterDeposit for tokens that are not fungible (tokens/service.go): it stores the transaction as a transfer of
-- fungible tokens, and so its own query never finds the deposit.
use flow_wallet_api.Prelude.{
  ℕ, ◌≡◌, refl, sym, ap, subst, ◌∙◌, inl, inr, true, false, Option, none, some, List, [], ◌∷◌, Text,
  bytes, contains, find_by, text_eq, text_eq_iff, arith, Bool-cases, Option-cases,
}
use flow_wallet_api.Errors.{error_text, Result, ok, err}
use flow_wallet_api.Call.{
  returned, and_then-returned, of_error-returned, try-returned, deref-returned,
}
use flow_wallet_api.Templates.{nft, Token}
use flow_wallet_api.Transactions.Types.{TransactionType, ft_transfer, nft_transfer}
use flow_wallet_api.Accounts.Types.{Account}
use flow_wallet_api.Tokens.Types.{TokenTransfer, FlowTransaction, ServiceImpl}
use flow_wallet_api.Tokens.Store.{TokenTables, selects, token_store, token_to_transfer_type}
use flow_wallet_api.Tokens.Service.{account_token}
use flow_wallet_api.Tokens.Deposits.{
  claimed, deposit_transfer, store_deposit, after_lookup, store_unless_found, register_deposit,
}
use flow_wallet_api.Transactions.Sql.{TransactionTable, get_or_create_transaction}
use flow_wallet_api.Tokens.Deposits.Ledger.{IsLedger, stamped}
use flow_wallet_api.Tokens.Deposits.Claims.{claimable, sql, claim_transaction_lem}
use flow_wallet_api.Tokens.Deposits.Halves.{deposit_query, lookup_lem}

not_selected :
    (id recipient : Text) (token : Token) (typed : Text → Option TransactionType)
    (x : TokenTransfer)
    → typed id ≡ some ft_transfer
    → selects (deposit_query recipient id token nft_transfer) typed x ≡ false
unfolding selects
not_selected id recipient token typed x e = elim (Bool-cases (text_eq x.transaction_id id)) [
  | inl same ↦
      let named : x.transaction_id ≡ id = (text_eq_iff x.transaction_id id).0 same in
      let kind : typed x.transaction_id ≡ some ft_transfer = ap typed named ∙ e in ground arith
  | inr other ↦ elim (Option-cases (typed x.transaction_id)) [
    | inl none_there ↦ ground arith
    | inr (k, there) ↦ ground arith
  ]
]

-- No row is selected where the transaction has another type.
none_selected :
    (id recipient : Text) (token : Token) (typed : Text → Option TransactionType)
    (rows : List TokenTransfer)
    → typed id ≡ some ft_transfer
    → find_by (selects (deposit_query recipient id token nft_transfer) typed) rows ≡ none
none_selected id recipient token typed [] e = refl
none_selected id recipient token typed (x ∷ rows) e =
    rw (not_selected id recipient token typed x e) (none_selected id recipient token typed rows e)

module _ {W A E : Type 0} (svc : ServiceImpl W A E) (t : TokenTables W)
    (table : TransactionTable W E) (l : IsLedger t table svc.get_flow_transaction) where
  open l use {transfers, typed}

  -- The row that RegisterDeposit has stored for the deposit.
  abbrev pub Row : Text → Text → Token → TokenTransfer → Type 0
  Row id recipient token x =
      (x.transaction_id ≡ id) × (x.recipient_address ≡ recipient) × (x.token_name ≡ token.name)

  abbrev pub IsStored : Text → Text → Token → W → W → Type 0
  IsStored id recipient token w w' =
      (x : TokenTransfer) × Row id recipient token x × (transfers w' ≡ x ∷ transfers w)

  after_lookup_stores :
      (id recipient : Text) (flow_tx : FlowTransaction A) (amount : Text × ℕ) (token : Token)
      (u : Unit {0}) (w w' : W) (r : Result TokenTransfer × W)
      → r ≡ t.first (deposit_query recipient id token nft_transfer) w
      → typed w id ≡ some ft_transfer
      → after_lookup (sql svc t table l) id recipient flow_tx amount token r ≡ returned u w'
      → IsStored id recipient token w w' × (typed w' ≡ typed w)
  unfolding after_lookup store_deposit token_store
  after_lookup_stores id recipient flow_tx amount token u w w' (ok y, v) e typed_as h =
      let (x, held) =
        l.first_found (deposit_query recipient id token nft_transfer) w y (sym (ap (λ p. p.0) e)) in
      let missing = none_selected id recipient token (typed w) (transfers w) typed_as in
      absurd (ground arith)
  after_lookup_stores id recipient flow_tx amount token u w w' (err z, v) e typed_as h =
      let (kept, types) = l.first_keeps (deposit_query recipient id token nft_transfer) w in
      let moved : typed v ≡ typed w = ap (λ p. typed p.1) e ∙ types in
      let same : transfers v ≡ transfers w = ap (λ p. transfers p.1) e ∙ kept in
      elim (Bool-cases (contains (error_text z) (bytes "record not found"))) [
        | inr other ↦ absurd (ground arith)
        | inl missing ↦
            let stored : store_deposit (sql svc t table l) id recipient flow_tx amount token v
                ≡ returned u w' =
              sym (rw missing refl) ∙ h in
            let (sender, v₁, first, rest) = and_then-returned stored in
            let (_, at) = deref-returned first in
            let (created, after) = of_error-returned rest in
            let row = deposit_transfer (sql svc t table l) id recipient sender amount token in
            let (n, written) = l.create_writes row v₁ created in
            (
              (
                stamped n row,
                (refl, refl, refl),
                ap transfers (sym after)
                    ∙ written
                    ∙ ap (λ rows. stamped n row ∷ rows) (ap transfers (sym at) ∙ same),
              ),
              ap typed (sym after) ∙ l.create_keeps row v₁ ∙ ap typed (sym at) ∙ moved,
            )
      ]

  register_deposit_stores :
      (token : Token) (id : Text) (recipient : Account) (text : Text) (u : Unit {0}) (w w' : W)
      → token_to_transfer_type token ≡ ok nft_transfer
      → (table.first_or_create id w).0.0 ≡ none
      → claimable (get_or_create_transaction table id w).0.transaction_type ≡ true
      → register_deposit (sql svc t table l) token id recipient text w ≡ returned u w'
      → IsStored id recipient.address token w w' × (typed w' id ≡ some ft_transfer)
  unfolding register_deposit store_unless_found token_store
  register_deposit_stores token id recipient text u w w' kind found c h =
      let (amount, w₁, tried, h₁) = and_then-returned h in
      let ((flow_tx, stored_id), w₂, claimed, h₂) = and_then-returned h₁ in
      let (_, w₃, inserted, h₃) = and_then-returned h₂ in
      let (_, at) = try-returned tried in
      let (_, after) = of_error-returned inserted in
      let found_here = subst (λ v. (table.first_or_create id v).0.0 ≡ none) at found in
      let claimable_here =
        subst (λ v. claimable (get_or_create_transaction table id v).0.transaction_type ≡ true) at
          c in
      let (rows, named, typed_as) =
        claim_transaction_lem svc t table l id stored_id flow_tx w₁ w₂ found_here claimable_here
          claimed in
      let (kept, types) = l.token_keeps (account_token recipient.address token) w₂ in
      let typed₃ : typed w₃ stored_id ≡ some ft_transfer =
        ap (λ v. typed v stored_id) (sym after) ∙ ap (λ f. f stored_id) types ∙ typed_as in
      let rows₃ : transfers w₃ ≡ transfers w =
        ap transfers (sym after) ∙ kept ∙ rows ∙ ap transfers (sym at) in
      let ((x, row, stored), retyped) =
        after_lookup_stores stored_id recipient.address flow_tx amount token u w₃ w' _
          (lookup_lem svc t table l stored_id recipient.address token nft_transfer w₃ kind) typed₃
          h₃ in
      subst (λ i. IsStored i recipient.address token w w' × (typed w' i ≡ some ft_transfer))
        (sym named)
        ((x, row, stored ∙ ap (λ r. x ∷ r) rows₃), ap (λ f. f stored_id) retyped ∙ typed₃)

  -- A deposit of a token that is not fungible is stored again each time that it is registered, over
  -- the SQL stores of tokens and of transactions: where RegisterDeposit returns twice without an
  -- error for one token, transaction and recipient, two rows for it are new, if the transaction was
  -- of unknown type or a transfer of fungible tokens, FirstOrCreate has found or created it both
  -- times without the error that the code drops, and the database behaves as documented.
  pub register_deposit_twice :
      (token : Token) (id : Text) (recipient : Account) (text : Text) (u v : Unit {0})
      (w w' w'' : W)
      → token.token_type ≡ nft
      → (table.first_or_create id w).0.0 ≡ none
      → (table.first_or_create id w').0.0 ≡ none
      → claimable (get_or_create_transaction table id w).0.transaction_type ≡ true
      → register_deposit (sql svc t table l) token id recipient text w ≡ returned u w'
      → register_deposit (sql svc t table l) token id recipient text w' ≡ returned v w''
      → (x y : TokenTransfer) × Row id recipient.address token x
        × Row id recipient.address token y
        × (transfers w'' ≡ y ∷ x ∷ transfers w)
  unfolding token_to_transfer_type
  register_deposit_twice token id recipient text u v w w' w'' unique found found' c h h' =
      let kind : token_to_transfer_type token ≡ ok nft_transfer = rw unique refl in
      let ((x, row, stored), typed_as) =
        register_deposit_stores token id recipient text u w w' kind found c h in
      let again : claimable (get_or_create_transaction table id w').0.transaction_type ≡ true =
        ap claimable (l.get_reads id w' ft_transfer found' typed_as).0 in
      let ((y, row', stored'), _) =
        register_deposit_stores token id recipient text v w' w'' kind found' again h' in
      (x, y, row, row', stored' ∙ ap (λ r. y ∷ r) stored)
