-- ===== src/Transactions/Sql.antt =====
-- transactions/store_gorm.go, with ExecuteScript and MustDecodeArgs (transactions/service.go, transactions/argument.go).
-- gorm is the parameter `TransactionTable`.
use flow_wallet_api.Prelude.{Option, none, some, List, [], ◌∷◌, Text}
use flow_wallet_api.Errors.{GoError, Result, ok, err}
use flow_wallet_api.Call.{Call, panicked, of_result}
use flow_wallet_api.Datastore.{ListOptions}
use flow_wallet_api.Transactions.Types.{
  TransactionType, unknown, general, ft_setup, ft_transfer, nft_setup, nft_transfer, Transaction,
  Argument, JsonCodec, arg_as_cadence,
}
use flow_wallet_api.Transactions.Parts

-- The conditions of a query by a struct, without those on fields with their zero value, which gorm leaves out.
pub record TransactionQuery : Type 0 where
  pub transaction_id : Option Text
  pub transaction_type : Option TransactionType
  pub proposer_address : Option Text

unfoldable pub text_condition : Text → Option Text
text_condition [] = none
text_condition (c ∷ t) = some (c ∷ t)

unfoldable pub type_condition : TransactionType → Option TransactionType
type_condition unknown = none
type_condition general = some general
type_condition ft_setup = some ft_setup
type_condition ft_transfer = some ft_transfer
type_condition nft_setup = some nft_setup
type_condition nft_transfer = some nft_transfer

-- What GormStore calls on *gorm.DB: `find` is ORDER BY created_at desc with LIMIT and OFFSET, `first_or_create` a look-up
-- by id that creates a row of unknown type where none is there, with the variable that it has filled.
pub record TransactionTable (W E : Type 0) : Type 0 where
  pub find : TransactionQuery → ListOptions → W → Result (List (Transaction E)) × W
  pub first : TransactionQuery → W → Result (Transaction E) × W
  pub first_or_create : Text → W → (Option GoError × Transaction E) × W
  pub create : Transaction E → W → Option GoError × W
  pub save : Transaction E → W → Option GoError × W

abbrev pub all_transactions : TransactionQuery
all_transactions = record {
  transaction_id = none;
  transaction_type = none;
  proposer_address = none;
}

module _ {W E : Type 0} (t : TransactionTable W E) where
  -- GormStore
  unfoldable pub transaction_store : Parts.Store W E
  unfolding text_condition type_condition
  transaction_store = record {
    transactions = t.find all_transactions;
    transaction = λ id. t.first (record all_transactions { transaction_id = text_condition id });
    transactions_for_account = λ type address. t.find (record all_transactions {
      transaction_type = type_condition type;
      proposer_address = text_condition address;
    });
    transaction_for_account = λ type address id. t.first (record {
      transaction_id = text_condition id;
      transaction_type = type_condition type;
      proposer_address = text_condition address;
    });
    insert_transaction = t.create;
    update_transaction = t.save;
  }

  -- GormStore.GetOrCreateTransaction, which drops the error.
  abbrev pub get_or_create_transaction : Text → W → Transaction E × W
  get_or_create_transaction id w = let (r, w') = t.first_or_create id w in (r.1, w')

  -- GormStore.UpdateTransaction
  abbrev pub update_transaction : Transaction E → W → Option GoError × W
  update_transaction = t.save

-- MustDecodeArgs; none where it panics.
unfoldable pub must_decode_args : JsonCodec → List Argument → Option (List Text)
must_decode_args c [] = some []
must_decode_args c (a ∷ more) =
    let rest = must_decode_args c more in
    elim (arg_as_cadence c a) [
      | err e ↦ none
      | ok v ↦ elim rest [ none ↦ none | some vs ↦ some (v ∷ vs) ]
    ]

-- ExecuteScript, with the client's ExecuteScriptAtLatestBlock.
unfoldable pub execute_script :
    {W : Type 0}
    → JsonCodec
    → (Text → List Text → W → Result Text × W)
    → Text
    → List Argument
    → Call W Text
unfolding must_decode_args
execute_script c run code arguments w = elim (must_decode_args c arguments) [
  | none ↦ panicked w
  | some values ↦ of_result (run code values w)
]
