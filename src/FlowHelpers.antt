-- ===== src/FlowHelpers.antt =====
-- flow_helpers/flow_helpers.go: addresses, transaction ids, and waiting for a transaction. The Flow SDK and
-- the access API's client are parameters.
pub mod Addresses
pub mod Waiting
pub mod Tests
use flow_wallet_api.Prelude.{
  ℕ, zero, suc, ◌≡◌, Bool, true, false, not, Option, none, some, List, [], ◌∷◌, ◌++◌, Text, bytes,
  text_eq, has_prefix, if◌then◌else◌,
}
use flow_wallet_api.Errors.{GoError, plain, request_error, Result, ok, err}

-- What the helpers call of github.com/onflow/flow-go-sdk and encoding/hex: HexToAddress, Address.Hex,
-- Address.IsValid for the configured chain, hex.DecodeString, and the hex text of BytesToID. Reading back
-- what FormatAddress has written gives the address.
pub record Sdk (Address : Type 0) : Type 0 where
  pub hex_to_address : Text → Address
  pub address_hex : Address → Text
  pub is_valid : Address → Bool
  pub decode_hex : Text → Option (List ℕ)
  pub id_hex : List ℕ → Text
  pub hex_round_trip : (a : Address) → hex_to_address (bytes "0x" ++ address_hex a) ≡ a
  pub hex_has_no_prefix : (a : Address) → has_prefix (address_hex a) (bytes "0x") ≡ false

abbrev pub hex_prefix : Text
hex_prefix = bytes "0x"

-- HexString
unfoldable pub hex_string : Text → Text
hex_string s = if has_prefix s hex_prefix then s else hex_prefix ++ s

-- fmt.Errorf with the quoted text, as a request error 400
abbrev pub bad_request : Text → Text → GoError
bad_request text value = request_error 400 (plain (text ++ (bytes "\"" ++ (value ++ bytes "\""))))

module _ {Address : Type 0} (sdk : Sdk Address) where
  -- FormatAddress
  abbrev pub format_address : Address → Text
  format_address a = hex_string (sdk.address_hex a)

  -- ValidateAddress
  unfoldable pub validate_address : Text → Result Text
  unfolding hex_string
  validate_address address =
      let flow_address = sdk.hex_to_address address in
      if not (sdk.is_valid flow_address)
      then err (bad_request (bytes "not a valid address: ") address)
      else ok (format_address flow_address)

  -- ValidateTransactionId
  unfoldable pub validate_transaction_id : Text → Option GoError
  validate_transaction_id id =
      let invalid = bad_request (bytes "not a valid transaction id: ") id in
      elim (sdk.decode_hex id) [
        | none ↦ some invalid
        | some b ↦ if not (text_eq id (sdk.id_hex b)) then some invalid else none
      ]

-- flow.TransactionStatus: the two that the code names, and any other.
pub data TransactionStatus : Type 0 where
  sealed expired : TransactionStatus
  other_status : ℕ → TransactionStatus

-- flow.TransactionResult
pub record TransactionResult (E : Type 0) : Type 0 where
  pub status : TransactionStatus
  pub error : Option GoError
  pub events : List E

-- What the code calls of FlowClient for transactions of type `Tx`, and time.Sleep. A context with a
-- timeout is part of the world: the client fails once its deadline has passed.
pub record Client (W Tx E : Type 0) : Type 0 where
  pub get_transaction : Text → W → Option GoError × W
  pub get_transaction_result : Text → W → Result (TransactionResult E) × W
  pub send_transaction : Tx → W → Option GoError × W
  pub latest_block_id : W → Result Text × W
  pub execute_script : Text → List Text → W → Result Text × W
  pub sleep : W → W

-- The pair that WaitForSeal returns.
abbrev pub Waited : Type 0 → Type 0
Waited E = Option (TransactionResult E) × Option GoError

abbrev pub expired_error : GoError
expired_error = plain (bytes "transaction expired")

-- What the loop's body makes of an answer: the return value, or none for another round.
unfoldable pub on_answer : {E : Type 0} → Result (TransactionResult E) → Option (Waited E)
on_answer (err e) = some (none, some e)
on_answer (ok r) = elim r.error [
  | some e ↦ some (some r, some e)
  | none ↦ elim r.status [
    | sealed ↦ some (some r, none)
    | expired ↦ some (some r, some expired_error)
    | other_status n ↦ none
  ]
]

module _ {W Tx E : Type 0} (fc : Client W Tx E) where
  -- WaitForSeal, for at most `fuel` rounds; none if these were not enough.
  unfoldable pub wait_for_seal : ℕ → Text → W → Option (Waited E) × W
  unfolding on_answer
  wait_for_seal zero id w = (none, w)
  wait_for_seal (suc fuel) id w =
      let (r, w') = fc.get_transaction_result id w in
      let rest = wait_for_seal fuel id (fc.sleep w') in
      elim (on_answer r) [ some waited ↦ (some waited, w') | none ↦ rest ]

  -- SendAndWait
  pub send_and_wait : ℕ → Text → Tx → W → Option (Waited E) × W
  send_and_wait fuel id tx w =
      let (e, w') = fc.send_transaction tx w in
      let waited = wait_for_seal fuel id w' in
      elim e [ some x ↦ (some (none, some x), w') | none ↦ waited ]
