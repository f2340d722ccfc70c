-- ===== src/Accounts/Types.antt =====
-- accounts/accounts.go, accounts/store.go and accounts/account_added.go, and the parts of ServiceImpl (accounts/service.go):
-- the datastore, the key manager, the Flow client, and the two services that it calls.
use flow_wallet_api.Prelude.{ℕ, Option, List, [], ◌∷◌, Text, bytes, ℤ, Bool}
use flow_wallet_api.Errors.{GoError, Result}
use flow_wallet_api.Datastore.{ListOptions}
use flow_wallet_api.FlowHelpers.{Sdk, Client}
use flow_wallet_api.Jobs.Pool.{WorkerPool}
use flow_wallet_api.Transactions.Types.{TransactionType, Transaction, Argument}
use flow_wallet_api.Transactions.{Authorizer, Patience}
use flow_wallet_api.Keys.Types.{Storable, Private, AccountKey}

abbrev pub account_type_custodial : Text
account_type_custodial = bytes "custodial"

abbrev pub account_type_non_custodial : Text
account_type_non_custodial = bytes "non-custodial"

pub record Account : Type 0 where
  pub address : Text
  pub keys : List Storable
  pub account_type : Text
  pub created_at : ℕ
  pub updated_at : ℕ

-- The zero value.
abbrev pub no_account : Account
no_account = record { address = []; keys = []; account_type = []; created_at = 0; updated_at = 0 }

-- The interface Store of accounts/store.go. An insertion returns the account as it leaves it.
pub record Store (W : Type 0) : Type 0 where
  pub accounts : ListOptions → W → Result (List Account) × W
  pub account : Text → W → Result Account × W
  pub insert_account : Account → W → Option GoError × Account × W
  pub save_account : Account → W → Option GoError × W
  pub hard_delete_account : Account → W → Option GoError × W
  pub delete_key_for_account : Account → Storable → W → Option GoError × W
  pub get_keys_by_type : Text → W → Result (List Storable) × W

-- What the service calls of keys.Manager.
pub record Manager (W A : Type 0) : Type 0 where
  pub admin_authorizer : W → Result (Authorizer A) × W
  pub admin_proposal_key : W → Result (Authorizer A) × W
  pub generate_default : W → Result (AccountKey × Private) × W
  pub save : Private → W → Result Storable × W
  pub check_admin_proposal_key_count : W → Option GoError × W
  pub init_admin_proposal_keys : W → ℕ × Option GoError × W

-- What the service calls of the SDK for the transactions that it builds itself. `prepare` is its four or five setters
-- (block, proposal key, payer, gas limit), `event_address` the address in an event flow.AccountCreated.
pub record Builder (Tx A E : Type 0) : Type 0 where
  pub create_account : List AccountKey → A → Result Tx
  pub new_transaction : Tx
  pub prepare : Text → Authorizer A → A → ℕ → Tx → Tx
  pub set_script : Text → Tx → Tx
  pub add_argument : Text → Tx → Result Tx
  pub add_authorizer : A → Tx → Tx
  pub sign_payload : Authorizer A → Tx → Result Tx
  pub sign_envelope : Authorizer A → Tx → Result Tx
  pub tx_id : Tx → Text
  pub event_address : E → Option A
  pub empty_address : A
  pub is_empty : A → Bool

-- What the service calls of cadence and of the SDK for keys; Cadence values are texts. A decoded public key is a
-- number, which `same_key` compares with an on-chain key.
pub record KeyCodec : Type 0 where
  pub decode_public_key : Text → Text → Result ℕ
  pub same_key : AccountKey → ℕ → Bool
  pub new_string : Text → Result Text
  pub new_array : List Text → Text
  pub new_int : ℕ → Text
  pub new_uint16 : ℕ → Text
  pub crypto_key : AccountKey → Result Text

-- The decoded attributes of the four jobs, and their encoding as JSON.
pub record Attributes (A : Type 0) : Type 0 where
  pub marshal_sync : A → ℤ → Result Text
  pub unmarshal_sync : Text → Result (A × ℤ)
  pub marshal_add : A → Result Text
  pub unmarshal_add : Text → Result A
  pub marshal_revoke : A → ℕ → Result Text
  pub unmarshal_revoke : Text → Result (A × ℕ)

-- What the service reads of configs.Config, with the Cadence code that it sends.
pub record Config : Type 0 where
  pub chain_id : Text
  pub admin_address : Text
  pub admin_key_index : ℕ
  pub admin_proposal_key_count : ℕ
  pub default_account_key_count : ℕ
  pub script_path_create_account : Text
  pub add_account_keys : Text
  pub add_account_key : Text
  pub remove_account_key : Text
  pub add_proposal_key : Text

-- ServiceImpl. `create_sync` is transactions.Service's Create with sync set, `handlers` what was registered with
-- AccountAdded, `get_account` the client's GetAccount, of which only the keys are read, `read_file` os.ReadFile,
-- and `itoa` fmt's %d.
pub record ServiceImpl (W A Tx E : Type 0) : Type 0 where
  pub cfg : Config
  pub store : Store W
  pub km : Manager W A
  pub fc : Client W Tx E
  pub patience : Patience fc
  pub get_account : A → W → Result (List AccountKey) × W
  pub wp : WorkerPool W
  pub create_sync : Text → Text → List Argument → TransactionType → W → Result (Transaction E) × W
  pub take : W → W
  pub sdk : Sdk A
  pub builder : Builder Tx A E
  pub codec : KeyCodec
  pub attributes : Attributes A
  pub handlers : List (A → W → W)
  pub read_file : Text → W → Result Text × W
  pub itoa : ℕ → Text

-- AccountAdded.Register, and Trigger. Each handler runs in a goroutine of its own; here it runs to its end at once.
abbrev pub register : {W A : Type 0} → (A → W → W) → List (A → W → W) → List (A → W → W)
register h [] = h ∷ []
register h (g ∷ handlers) = g ∷ register h handlers

abbrev pub trigger : {W A : Type 0} → List (A → W → W) → A → W → W
trigger [] payload w = w
trigger (h ∷ handlers) payload w = trigger handlers payload (h payload w)
