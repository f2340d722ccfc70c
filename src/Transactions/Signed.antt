-- ===== src/Transactions/Signed.antt =====
-- transactions/transactions.go: a signed transaction, which is a flow.Transaction, and its JSON form. Identifiers
-- and signatures are bytes, which the SDK's Hex and fmt's %x print.
use flow_wallet_api.Prelude.{ℕ, List, map, Text}
use flow_wallet_api.Errors.{Result, ok}
use flow_wallet_api.FlowHelpers.{Sdk}

-- flow.ProposalKey, and flow.TransactionSignature.
pub record ProposalKey (A : Type 0) : Type 0 where
  pub address : A
  pub key_index : ℕ
  pub sequence_number : ℕ

pub record TransactionSignature (A : Type 0) : Type 0 where
  pub address : A
  pub key_index : ℕ
  pub signature : List ℕ

pub record SignedTransaction (A : Type 0) : Type 0 where
  pub script : Text
  pub arguments : List Text
  pub reference_block_id : List ℕ
  pub gas_limit : ℕ
  pub proposal_key : ProposalKey A
  pub payer : A
  pub authorizers : List A
  pub payload_signatures : List (TransactionSignature A)
  pub envelope_signatures : List (TransactionSignature A)

-- ProposalKeyJSON, and TransactionSignatureJSON.
pub record ProposalKeyJson : Type 0 where
  pub address : Text
  pub key_index : ℕ
  pub sequence_number : ℕ

pub record TransactionSignatureJson : Type 0 where
  pub address : Text
  pub key_index : ℕ
  pub signature : Text

pub record SignedTransactionJsonResponse : Type 0 where
  pub code : Text
  pub arguments : List Text
  pub reference_block_id : Text
  pub gas_limit : ℕ
  pub proposal_key : ProposalKeyJson
  pub payer : Text
  pub authorizers : List Text
  pub payload_signatures : List TransactionSignatureJson
  pub envelope_signatures : List TransactionSignatureJson

module _ {A : Type 0} (sdk : Sdk A) (sprintf_x : List ℕ → Text) where
  -- The body of the loops over signatures.
  abbrev pub signature_json : TransactionSignature A → TransactionSignatureJson
  signature_json s = record {
    address = sdk.address_hex s.address;
    key_index = s.key_index;
    signature = sprintf_x s.signature;
  }

  -- SignedTransaction.ToJSONResponse, whose error is always nil.
  unfoldable pub signed_json_response : SignedTransaction A → Result SignedTransactionJsonResponse
  signed_json_response st = ok (record {
    code = st.script;
    arguments = st.arguments;
    reference_block_id = sdk.id_hex st.reference_block_id;
    gas_limit = st.gas_limit;
    proposal_key = record {
      address = sdk.address_hex st.proposal_key.address;
      key_index = st.proposal_key.key_index;
      sequence_number = st.proposal_key.sequence_number;
    };
    payer = sdk.address_hex st.payer;
    authorizers = map sdk.address_hex st.authorizers;
    payload_signatures = map signature_json st.payload_signatures;
    envelope_signatures = map signature_json st.envelope_signatures;
  })
