-- ===== src/Tokens/Deposits/Ledger.antt =====
-- How the rows of token_transfers and the types of the transactions change under the calls of RegisterDeposit.
use flow_wallet_api.Prelude.{
  ℕ, ◌≡◌, false, Option, none, some, List, ◌∷◌, Text, bytes, contains, find_by,
}
use flow_wallet_api.Errors.{GoError, error_text, Result, ok, err}
use flow_wallet_api.Transactions.Types.{TransactionType, Transaction}
use flow_wallet_api.Tokens.Types.{AccountToken, TokenTransfer, FlowTransaction}
use flow_wallet_api.Transactions.Sql.{TransactionTable}
use flow_wallet_api.Tokens.Store.{TransferQuery, selects, TokenTables}

-- A row as gorm leaves it in the database.
abbrev pub stamped : ℕ → TokenTransfer → TokenTransfer
stamped n t = record t { created_at = n; updated_at = n }

-- The documented behaviour of gorm under these calls, over the rows of both tables: `typed` is the type of the
-- transaction with an id. A query answers with a row that it selects, and does not say "record not found" where
-- there is one.
pub record IsLedger {W A E : Type 0} (t : TokenTables W) (table : TransactionTable W E)
    (get_flow_transaction : Text → W → Result (FlowTransaction A) × W) : Type 0 where
  pub transfers : W → List TokenTransfer
  pub typed : W → Text → Option TransactionType
  pub first_finds :
      (q : TransferQuery) (w : W) (x : TokenTransfer) (e : GoError)
      → find_by (selects q (typed w)) (transfers w) ≡ some x
      → (t.first q w).0 ≡ err e
      → contains (error_text e) (bytes "record not found") ≡ false
  pub first_found :
      (q : TransferQuery) (w : W) (y : TokenTransfer)
      → (t.first q w).0 ≡ ok y
      → (x : TokenTransfer) × (find_by (selects q (typed w)) (transfers w) ≡ some x)
  pub first_keeps :
      (q : TransferQuery) (w : W)
      → (transfers (t.first q w).1 ≡ transfers w) × (typed (t.first q w).1 ≡ typed w)
  pub token_keeps :
      (k : AccountToken) (w : W)
      → (transfers (t.first_or_create k w).1 ≡ transfers w)
        × (typed (t.first_or_create k w).1 ≡ typed w)
  pub create_writes :
      (x : TokenTransfer) (w : W)
      → (t.create x w).0 ≡ none
      → (n : ℕ) × (transfers (t.create x w).1 ≡ stamped n x ∷ transfers w)
  pub create_keeps : (x : TokenTransfer) (w : W) → typed (t.create x w).1 ≡ typed w
  pub get_keeps : (id : Text) (w : W) → transfers (table.first_or_create id w).1 ≡ transfers w
  pub get_types :
      (id : Text) (w : W)
      → (table.first_or_create id w).0.0 ≡ none
      → ((table.first_or_create id w).0.1.transaction_id ≡ id)
        × (typed (table.first_or_create id w).1 id
            ≡ some (table.first_or_create id w).0.1.transaction_type)
  pub get_reads :
      (id : Text) (w : W) (type : TransactionType)
      → (table.first_or_create id w).0.0 ≡ none
      → typed w id ≡ some type
      → ((table.first_or_create id w).0.1.transaction_type ≡ type)
        × (typed (table.first_or_create id w).1 ≡ typed w)
  pub update_keeps : (x : Transaction E) (w : W) → transfers (table.save x w).1 ≡ transfers w
  pub update_types :
      (x : Transaction E) (w : W)
      → (table.save x w).0 ≡ none
      → typed (table.save x w).1 x.transaction_id ≡ some x.transaction_type
  pub chain_keeps :
      (id : Text) (w : W)
      → (transfers (get_flow_transaction id w).1 ≡ transfers w)
        × (typed (get_flow_transaction id w).1 ≡ typed w)
