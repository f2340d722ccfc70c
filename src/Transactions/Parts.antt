-- ===== src/Transactions/Parts.antt =====
-- What the transaction service (transactions/service.go) is made of: the key manager, the SDK's builder of
-- transactions, the store, and the service's own record.
use flow_wallet_api.Prelude.{ℕ, ◌≡◌, Option, some, List, Text}
use flow_wallet_api.Errors.{GoError, Result}
use flow_wallet_api.Datastore.{ListOptions}
use flow_wallet_api.FlowHelpers.{Sdk, Client, Waited, wait_for_seal}
use flow_wallet_api.Jobs.Pool.{WorkerPool}
use flow_wallet_api.Transactions.Types.{TransactionType, Transaction, JsonCodec}

-- keys.Authorizer: the address, the key's index and sequence number, and the signer by its number.
pub record Authorizer (A : Type 0) : Type 0 where
  pub address : A
  pub key_index : ℕ
  pub sequence_number : ℕ
  pub signer : ℕ

-- What the service calls of keys.Manager.
pub record KeyManager (W A : Type 0) : Type 0 where
  pub admin_authorizer : W → Result (Authorizer A) × W
  pub admin_proposal_key : W → Result (Authorizer A) × W
  pub user_authorizer : A → W → Result (Authorizer A) × W

-- What the service calls of flow.Transaction; `draft` is NewTransaction with its five setters.
pub record Builder (Tx A : Type 0) : Type 0 where
  pub draft : Text → Authorizer A → A → ℕ → Text → Tx
  pub add_argument : Text → Tx → Result Tx
  pub add_authorizer : A → Tx → Tx
  pub sign_payload : Authorizer A → Tx → Result Tx
  pub sign_envelope : Authorizer A → Tx → Result Tx
  pub tx_id : Tx → Text
  pub encode : Tx → Text
  pub decode : Text → Result Tx

-- The interface Store of transactions/store.go; what gorm leaves in a result when it fails is the zero value.
pub record Store (W E : Type 0) : Type 0 where
  pub transactions : ListOptions → W → Result (List (Transaction E)) × W
  pub transaction : Text → W → Result (Transaction E) × W
  pub transactions_for_account :
      TransactionType → Text → ListOptions → W → Result (List (Transaction E)) × W
  pub transaction_for_account : TransactionType → Text → Text → W → Result (Transaction E) × W
  pub insert_transaction : Transaction E → W → Option GoError × W
  pub update_transaction : Transaction E → W → Option GoError × W

-- How many rounds WaitForSeal takes from a world, and that these are enough: the context's timeout ends it.
pub record Patience {W Tx E : Type 0} (fc : Client W Tx E) : Type 0 where
  pub rounds : Text → W → ℕ
  pub answers :
      (id : Text) (w : W) → (a : Waited E) × ((wait_for_seal fc (rounds id w) id w).0 ≡ some a)

-- ServiceImpl. `take` waits for the rate limiter.
pub record Service (W A Tx E : Type 0) : Type 0 where
  pub store : Store W E
  pub km : KeyManager W A
  pub fc : Client W Tx E
  pub wp : WorkerPool W
  pub sdk : Sdk A
  pub builder : Builder Tx A
  pub codec : JsonCodec
  pub patience : Patience fc
  pub admin_address : Text
  pub take : W → W
