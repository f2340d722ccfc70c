-- ===== src/Tokens/Deposits/Halves.antt =====
-- The second half of RegisterDeposit over the SQL store: what it stores, and where it stores nothing
-- (tokens/service.go, tokens/store_gorm.go).
use flow_wallet_api.Prelude.{
  ℕ, ◌≡◌, refl, sym, ap, ap₂, ◌∙◌, inl, inr, true, Option, some, ◌∷◌, Text, bytes, contains,
  find_by, text_eq_refl, arith, Bool-cases,
}
use flow_wallet_api.Errors.{error_text, Result, ok, err}
use flow_wallet_api.Call.{
  returned, final, and_then-returned, of_error-returned, deref-returned, returned_inj,
}
use flow_wallet_api.Templates.{Token}
use flow_wallet_api.Transactions.Types.{
  TransactionType, unknown, general, ft_setup, ft_transfer, nft_setup, nft_transfer,
}
use flow_wallet_api.Tokens.Types.{TokenTransfer, FlowTransaction, ServiceImpl}
use flow_wallet_api.Tokens.Store.{
  TokenTables, TransferQuery, selects, deposits_query, token_store, token_to_transfer_type,
  with_transfer_type_lem, same_type,
}
use flow_wallet_api.Tokens.Deposits.{deposit_transfer, store_deposit, after_lookup}
use flow_wallet_api.Transactions.Sql.{TransactionTable}
use flow_wallet_api.Tokens.Deposits.Ledger.{IsLedger, stamped}
use flow_wallet_api.Tokens.Deposits.Claims.{sql}

-- The query for a deposit that RegisterDeposit looks up.
abbrev pub deposit_query : Text → Text → Token → TransactionType → TransferQuery
deposit_query recipient id token type = deposits_query recipient (some id) token type

module _ {W A E : Type 0} (svc : ServiceImpl W A E) (t : TokenTables W)
    (table : TransactionTable W E) (l : IsLedger t table svc.get_flow_transaction) where
  open svc use {get_flow_transaction}
  open l use {transfers, typed}

  pub lookup_lem :
      (id recipient : Text) (token : Token) (type : TransactionType) (w : W)
      → token_to_transfer_type token ≡ ok type
      → (sql svc t table l).store.token_deposit recipient id token w
        ≡ t.first (deposit_query recipient id token type) w
  unfolding token_store
  lookup_lem id recipient token type w kind =
      with_transfer_type_lem token type (λ k. t.first (deposit_query recipient id token k)) w kind

  -- The second half of RegisterDeposit stores nothing where a row is there that its query selects.
  pub after_found_keeps :
      (id recipient : Text) (flow_tx : FlowTransaction A) (amount : Text × ℕ) (token : Token)
      (query : TransferQuery) (x : TokenTransfer) (w : W) (r : Result TokenTransfer × W)
      → r ≡ t.first query w
      → find_by (selects query (typed w)) (transfers w) ≡ some x
      → transfers (final (after_lookup (sql svc t table l) id recipient flow_tx amount token r))
        ≡ transfers w
  unfolding after_lookup
  after_found_keeps id recipient flow_tx amount token query x w (ok y, v) e held =
      ap (λ p. transfers p.1) e ∙ (l.first_keeps query w).0
  after_found_keeps id recipient flow_tx amount token query x w (err z, v) e held =
      let there = l.first_finds query w x z held (sym (ap (λ p. p.0) e)) in
      rw there (ap (λ p. transfers p.1) e ∙ (l.first_keeps query w).0)

  same_type_refl : (k : TransactionType) → same_type k k ≡ true
  same_type_refl unknown = refl
  same_type_refl general = refl
  same_type_refl ft_setup = refl
  same_type_refl ft_transfer = refl
  same_type_refl nft_setup = refl
  same_type_refl nft_transfer = refl

  selects_stored :
      (id recipient : Text) (sender : A) (amount : Text × ℕ) (token : Token)
      (type : TransactionType) (types : Text → Option TransactionType) (n : ℕ)
      → types id ≡ some type
      → selects
          (deposit_query recipient id token type)
          types
          (stamped n (deposit_transfer (sql svc t table l) id recipient sender amount token))
        ≡ true
  unfolding selects
  selects_stored id recipient sender amount token type types n e =
      rw (e, selects)
        (rw (text_eq_refl recipient, same_type_refl type)
          (rw (text_eq_refl id) (text_eq_refl token.name)))

  pub store_deposit_holds :
      (id recipient : Text) (flow_tx : FlowTransaction A) (amount : Text × ℕ) (token : Token)
      (type : TransactionType) (u : Unit {0}) (w w' : W)
      → typed w id ≡ some type
      → store_deposit (sql svc t table l) id recipient flow_tx amount token w ≡ returned u w'
      → (x : TokenTransfer) × (typed w' ≡ typed w)
        × (find_by (selects (deposit_query recipient id token type) (typed w')) (transfers w')
            ≡ some x)
  unfolding store_deposit token_store
  store_deposit_holds id recipient flow_tx amount token type u w w' typed_as h =
      let (sender, v, first, rest) = and_then-returned h in
      let (_, at) = deref-returned first in
      let (created, after) = of_error-returned rest in
      let row = deposit_transfer (sql svc t table l) id recipient sender amount token in
      let (n, written) = l.create_writes row v created in
      let retyped : typed w' ≡ typed w =
        ap typed (sym after) ∙ l.create_keeps row v ∙ ap typed (sym at) in
      let rows : transfers w' ≡ stamped n row ∷ transfers v = ap transfers (sym after) ∙ written in
      let chosen =
        selects_stored id recipient sender amount token type (typed w') n
          (ap (λ f. f id) retyped ∙ typed_as) in
      (stamped n row, retyped, rw (rows, chosen) refl)

  -- Where it returns, a row is there that its query selects, if the transaction has the token's transfer type.
  pub after_lookup_holds :
      (id recipient : Text) (flow_tx : FlowTransaction A) (amount : Text × ℕ) (token : Token)
      (type : TransactionType) (u : Unit {0}) (w w' : W) (r : Result TokenTransfer × W)
      → r ≡ t.first (deposit_query recipient id token type) w
      → typed w id ≡ some type
      → after_lookup (sql svc t table l) id recipient flow_tx amount token r ≡ returned u w'
      → (x : TokenTransfer) × (typed w' ≡ typed w)
        × (find_by (selects (deposit_query recipient id token type) (typed w')) (transfers w')
            ≡ some x)
  unfolding after_lookup
  after_lookup_holds id recipient flow_tx amount token type u w w' (ok y, v) e typed_as h =
      let (x, held) =
        l.first_found (deposit_query recipient id token type) w y (sym (ap (λ p. p.0) e)) in
      let (kept, types) = l.first_keeps (deposit_query recipient id token type) w in
      let (_, same) = returned_inj h in
      let moved = ap transfers (sym same) ∙ ap (λ p. transfers p.1) e ∙ kept in
      let retyped = ap typed (sym same) ∙ ap (λ p. typed p.1) e ∙ types in
      (
        x,
        retyped,
        ap₂ (λ f rows. find_by (selects (deposit_query recipient id token type) f) rows) retyped
              moved
            ∙ held,
      )
  after_lookup_holds id recipient flow_tx amount token type u w w' (err z, v) e typed_as h =
      let (_, types) = l.first_keeps (deposit_query recipient id token type) w in
      let moved : typed v ≡ typed w = ap (λ p. typed p.1) e ∙ types in
      elim (Bool-cases (contains (error_text z) (bytes "record not found"))) [
        | inr other ↦ absurd (ground arith)
        | inl missing ↦
            let stored : store_deposit (sql svc t table l) id recipient flow_tx amount token v
                ≡ returned u w' =
              sym (rw missing refl) ∙ h in
            let (x, retyped, held) =
              store_deposit_holds id recipient flow_tx amount token type u v w'
                (ap (λ f. f id) moved ∙ typed_as) stored in
            (x, retyped ∙ moved, held)
      ]
