-- ===== src/Transactions/Types.antt =====
-- transactions/types.go, type_string.go, transactions.go and argument.go: the data of transactions. A flow.Event
-- is of the opaque type `E`; DeletedAt, which nothing sets, is left out.
use flow_wallet_api.Prelude.{ℕ, ◌≡◌, refl, List, [], Text, bytes, text_eq, to_lower, if◌then◌else◌}
use flow_wallet_api.Errors.{Result, ok, err}

-- Type: its six constants. Other integers, which nothing makes, are left out.
pub data TransactionType : Type 0 where
  unknown general ft_setup ft_transfer nft_setup nft_transfer : TransactionType

-- Type.String, and so MarshalText
unfoldable pub type_string : TransactionType → Text
type_string unknown = bytes "Unknown"
type_string general = bytes "General"
type_string ft_setup = bytes "FtSetup"
type_string ft_transfer = bytes "FtTransfer"
type_string nft_setup = bytes "NftSetup"
type_string nft_transfer = bytes "NftTransfer"

-- The switch in StatusFromText.
unfoldable pub lower_type : Text → TransactionType
lower_type t =
    if text_eq t (bytes "general")
    then general
    else if text_eq t (bytes "ftsetup")
    then ft_setup
    else if text_eq t (bytes "fttransfer")
    then ft_transfer
    else if text_eq t (bytes "nftsetup")
    then nft_setup
    else if text_eq t (bytes "nfttransfer")
    then nft_transfer
    else unknown

-- StatusFromText, and so UnmarshalText
unfoldable pub status_from_text : Text → TransactionType
unfolding lower_type
status_from_text t = lower_type (to_lower t)

pub record Transaction (E : Type 0) : Type 0 where
  pub transaction_id : Text
  pub transaction_type : TransactionType
  pub proposer_address : Text
  pub flow_transaction : Text
  pub created_at : ℕ
  pub updated_at : ℕ
  pub events : List E

-- The zero value.
abbrev pub no_transaction : {E : Type 0} → Transaction E
no_transaction = record {
  transaction_id = [];
  transaction_type = unknown;
  proposer_address = [];
  flow_transaction = [];
  created_at = 0;
  updated_at = 0;
  events = [];
}

pub record JsonResponse (E : Type 0) : Type 0 where
  pub transaction_id : Text
  pub transaction_type : TransactionType
  pub events : List E
  pub created_at : ℕ
  pub updated_at : ℕ

-- Transaction.ToJSONResponse
unfoldable pub to_json_response : {E : Type 0} → Transaction E → JsonResponse E
to_json_response t = record {
  transaction_id = t.transaction_id;
  transaction_type = t.transaction_type;
  events = t.events;
  created_at = t.created_at;
  updated_at = t.updated_at;
}

-- Argument: a cadence.Value, a string, or any other value by its number. Cadence values are texts here.
pub data Argument : Type 0 where
  cadence_value string : Text → Argument
  other_value : ℕ → Argument

-- Decode of cadence's JSON encoding, and json.Marshal.
pub record JsonCodec : Type 0 where
  pub decode : Text → Result Text
  pub marshal : ℕ → Result Text

-- ArgAsCadence
unfoldable pub arg_as_cadence : JsonCodec → Argument → Result Text
arg_as_cadence c (cadence_value v) = ok v
arg_as_cadence c (string s) = c.decode s
arg_as_cadence c (other_value n) = elim (c.marshal n) [ err e ↦ err e | ok j ↦ c.decode j ]

-- StatusFromText returns a type for every text with the same lower-case form as the type's String.
status_from_text-type_string :
    (t : TransactionType) (s : Text)
    → to_lower s ≡ to_lower (type_string t)
    → status_from_text s ≡ t
unfolding status_from_text type_string to_lower text_eq
status_from_text-type_string unknown s h = rw h refl
status_from_text-type_string general s h = rw h refl
status_from_text-type_string ft_setup s h = rw h refl
status_from_text-type_string ft_transfer s h = rw h refl
status_from_text-type_string nft_setup s h = rw h refl
status_from_text-type_string nft_transfer s h = rw h refl
