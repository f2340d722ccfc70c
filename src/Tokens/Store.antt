-- ===== src/Tokens/Store.antt =====
-- tokens/store_gorm.go: the SQL store of tokens. gorm is the parameter `TokenTables`.
use flow_wallet_api.Prelude.{
  ◌≡◌, refl, Bool, true, false, ◌&&◌, Option, none, some, List, Text, bytes, text_eq,
}
use flow_wallet_api.Errors.{GoError, plain, Result, ok, err}
use flow_wallet_api.Templates.{TokenType, not_specified, ft, nft, Token}
use flow_wallet_api.Transactions.Types.{
  TransactionType, unknown, general, ft_setup, ft_transfer, nft_setup, nft_transfer,
}
use flow_wallet_api.Tokens.Types.{AccountToken, TokenTransfer, Store}

-- The conditions of a query over `token_transfers`, left joined with `transactions` on the transaction's id. A
-- condition that the query does not have is none.
pub record TransferQuery : Type 0 where
  pub sender_address : Option Text
  pub recipient_address : Option Text
  pub transaction_type : TransactionType
  pub transaction_id : Option Text
  pub token_name : Text

abbrev pub same_type : TransactionType → TransactionType → Bool
same_type unknown unknown = true
same_type general general = true
same_type ft_setup ft_setup = true
same_type ft_transfer ft_transfer = true
same_type nft_setup nft_setup = true
same_type nft_transfer nft_transfer = true
same_type _ _ = false

abbrev matches : Option Text → Text → Bool
matches none t = true
matches (some s) t = text_eq t s

-- The rows that a query selects, by the type of the transaction with an id. A row without a transaction has a null
-- type, which equals no type.
unfoldable pub selects : TransferQuery → (Text → Option TransactionType) → TokenTransfer → Bool
selects q typed t = elim (typed t.transaction_id) [
  | none ↦ false
  | some type ↦
      matches q.sender_address t.sender_address
      && (matches q.recipient_address t.recipient_address
          && (same_type type q.transaction_type
              && (matches q.transaction_id t.transaction_id && text_eq t.token_name q.token_name)))
]

-- What GormStore calls on *gorm.DB: `find` and `first` run a query ordered by created_at desc, `find_tokens` is WHERE
-- account_address, and token_type where one is given, ORDER BY token_name, `first_or_create` FirstOrCreate.
pub record TokenTables (W : Type 0) : Type 0 where
  pub find_tokens : Text → Option TokenType → W → Result (List AccountToken) × W
  pub first_or_create : AccountToken → W → Option GoError × W
  pub create : TokenTransfer → W → Option GoError × W
  pub find : TransferQuery → W → Result (List TokenTransfer) × W
  pub first : TransferQuery → W → Result TokenTransfer × W

abbrev pub unknown_token_type : GoError
unknown_token_type = plain (bytes "unknown token type")

-- tokenToTransferType
unfoldable pub token_to_transfer_type : Token → Result TransactionType
token_to_transfer_type token = elim token.token_type [
  | ft ↦ ok ft_transfer
  | nft ↦ ok nft_transfer
  | not_specified ↦ err unknown_token_type
]

-- The queries of TokenWithdrawals, TokenWithdrawal, TokenDeposits and TokenDeposit.
abbrev pub withdrawals_query : Text → Option Text → Token → TransactionType → TransferQuery
withdrawals_query address id token type = record {
  sender_address = some address;
  recipient_address = none;
  transaction_type = type;
  transaction_id = id;
  token_name = token.name;
}

abbrev pub deposits_query : Text → Option Text → Token → TransactionType → TransferQuery
deposits_query address id token type = record {
  sender_address = none;
  recipient_address = some address;
  transaction_type = type;
  transaction_id = id;
  token_name = token.name;
}

-- A query with the transfer type of a token, or its error.
abbrev pub with_transfer_type :
    {W R : Type 0} → Token → (TransactionType → W → Result R × W) → W → Result R × W
with_transfer_type token run w = elim (token_to_transfer_type token) [
  | err e ↦ (err e, w)
  | ok type ↦ run type w
]

pub with_transfer_type_lem :
    {W R : Type 0} (token : Token) (type : TransactionType)
    (run : TransactionType → W → Result R × W) (w : W)
    → token_to_transfer_type token ≡ ok type
    → with_transfer_type token run w ≡ run type w
with_transfer_type_lem token type run w e = rw (e, with_transfer_type) refl

module _ {W : Type 0} (t : TokenTables W) where
  -- GormStore.AccountTokens
  abbrev pub list_account_tokens : Text → TokenType → W → Result (List AccountToken) × W
  list_account_tokens address not_specified = t.find_tokens address none
  list_account_tokens address ft = t.find_tokens address (some ft)
  list_account_tokens address nft = t.find_tokens address (some nft)

  -- GormStore
  unfoldable pub token_store : Store W
  unfolding token_to_transfer_type
  token_store = record {
    account_tokens = list_account_tokens;
    insert_account_token = t.first_or_create;
    insert_token_transfer = t.create;
    token_withdrawals = λ address token.
        with_transfer_type token (λ type. t.find (withdrawals_query address none token type));
    token_withdrawal = λ address id token.
        with_transfer_type token (λ type. t.first (withdrawals_query address (some id) token type));
    token_deposits = λ address token.
        with_transfer_type token (λ type. t.find (deposits_query address none token type));
    token_deposit = λ address id token.
        with_transfer_type token (λ type. t.first (deposits_query address (some id) token type));
  }
