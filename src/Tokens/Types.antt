-- ===== src/Tokens/Types.antt =====
-- tokens/tokens.go and tokens/store.go, and the parts of ServiceImpl (tokens/service.go). The fields that only gorm
-- writes (ids, times of deletion, associated rows) are left out.
use flow_wallet_api.Prelude.{ℕ, Bool, Option, List, Text}
use flow_wallet_api.Errors.{GoError, Result}
use flow_wallet_api.FlowHelpers.{Sdk}
use flow_wallet_api.Jobs.Types.{Job}
use flow_wallet_api.Jobs.Pool.{WorkerPool, PoolState}
use flow_wallet_api.Templates.{TokenType, Token}
use flow_wallet_api.Transactions.Types.{TransactionType, Transaction, Argument}
use flow_wallet_api.Accounts.Types.{Account}

pub record Details : Type 0 where
  pub token_name : Text
  pub balance : Text

pub record WithdrawalRequest : Type 0 where
  pub token_name : Text
  pub recipient : Text
  pub ft_amount : Text
  pub nft_id : ℕ

pub record AccountToken : Type 0 where
  pub account_address : Text
  pub token_name : Text
  pub token_address : Text
  pub token_type : TokenType

pub record TokenTransfer : Type 0 where
  pub transaction_id : Text
  pub recipient_address : Text
  pub sender_address : Text
  pub ft_amount : Text
  pub nft_id : ℕ
  pub token_name : Text
  pub created_at : ℕ
  pub updated_at : ℕ

pub record TokenTransferBase : Type 0 where
  pub transaction_id : Text
  pub ft_amount : Text
  pub nft_id : ℕ
  pub token_name : Text
  pub created_at : ℕ
  pub updated_at : ℕ

pub record TokenWithdrawal : Type 0 where
  pub base : TokenTransferBase
  pub recipient_address : Text

pub record TokenDeposit : Type 0 where
  pub base : TokenTransferBase
  pub sender_address : Text

-- baseFromTransfer
abbrev pub base_from_transfer : TokenTransfer → TokenTransferBase
base_from_transfer t = record {
  transaction_id = t.transaction_id;
  ft_amount = t.ft_amount;
  nft_id = t.nft_id;
  token_name = t.token_name;
  created_at = t.created_at;
  updated_at = t.updated_at;
}

-- TokenTransfer.Withdrawal
abbrev pub withdrawal : TokenTransfer → TokenWithdrawal
withdrawal t = record { base = base_from_transfer t; recipient_address = t.recipient_address }

-- TokenTransfer.Deposit
abbrev pub deposit : TokenTransfer → TokenDeposit
deposit t = record { base = base_from_transfer t; sender_address = t.sender_address }

-- The interface Store of tokens/store.go.
pub record Store (W : Type 0) : Type 0 where
  pub account_tokens : Text → TokenType → W → Result (List AccountToken) × W
  pub insert_account_token : AccountToken → W → Option GoError × W
  pub insert_token_transfer : TokenTransfer → W → Option GoError × W
  pub token_withdrawals : Text → Token → W → Result (List TokenTransfer) × W
  pub token_withdrawal : Text → Text → Token → W → Result TokenTransfer × W
  pub token_deposits : Text → Token → W → Result (List TokenTransfer) × W
  pub token_deposit : Text → Text → Token → W → Result TokenTransfer × W

-- What the service calls of transactions.Service. `create_sync` is Create with sync set, which leaves the pool's
-- channel alone.
pub record TransactionService (W E : Type 0) : Type 0 where
  pub create :
      Bool
      → Text
      → Text
      → List Argument
      → TransactionType
      → PoolState W
      → Result (Option Job × Transaction E) × PoolState W
  pub create_sync : Text → Text → List Argument → TransactionType → W → Result (Transaction E) × W
  pub execute_script : Text → List Argument → W → Result Text × W
  pub get_or_create_transaction : Text → W → Transaction E × W
  pub update_transaction : Transaction E → W → Option GoError × W

-- What the service reads of a flow.Transaction: the proposal key's address and the authorizers.
pub record FlowTransaction (A : Type 0) : Type 0 where
  pub proposer : A
  pub authorizers : List A

-- What the service calls of cadence and strconv, and of encoding/json for a job's attributes; Cadence values are
-- texts.
pub record TokenCodec (A : Type 0) : Type 0 where
  pub new_address : A → Text
  pub new_ufix64 : Text → Result Text
  pub new_uint64 : ℕ → Text
  pub parse_uint : Text → Result ℕ
  pub marshal : Text → WithdrawalRequest → Result Text
  pub unmarshal : Text → Result (Text × WithdrawalRequest)

-- ServiceImpl. `token_by_name` is the template service's GetTokenByName, `account_details` the account service's
-- Details, `get_flow_transaction` the client's GetTransaction.
pub record ServiceImpl (W A E : Type 0) : Type 0 where
  pub store : Store W
  pub get_flow_transaction : Text → W → Result (FlowTransaction A) × W
  pub wp : WorkerPool W
  pub txs : TransactionService W E
  pub token_by_name : Text → W → Result Token × W
  pub account_details : Text → W → Result Account × W
  pub sdk : Sdk A
  pub codec : TokenCodec A
