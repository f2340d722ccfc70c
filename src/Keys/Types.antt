-- ===== src/Keys/Types.antt =====
-- keys/keys.go, keys/store.go, keys/encryption/encryption.go and keys/local/local.go: the data of keys, the interfaces
-- of the store and of the crypter, and local keys. Algorithms of the SDK's package crypto are numbers.
use flow_wallet_api.Prelude.{ℕ, Option, List, [], Text, Bool, bytes, ℤ}
use flow_wallet_api.Errors.{GoError, plain, Result, ok, err}
use flow_wallet_api.Templates.{trim_prefix}

abbrev pub account_key_type_local : Text
account_key_type_local = bytes "local"

abbrev pub account_key_type_google_kms : Text
account_key_type_google_kms = bytes "google_kms"

abbrev pub account_key_type_aws_kms : Text
account_key_type_aws_kms = bytes "aws_kms"

abbrev pub admin_proposal_key_count_mismatch : GoError
admin_proposal_key_count_mismatch = plain (bytes "admin-proposal-key count mismatch")

pub record Storable : Type 0 where
  pub id : ℕ
  pub account_address : Text
  pub index : ℕ
  pub key_type : Text
  pub value : List ℕ
  pub public_key : Text
  pub sign_algo : Text
  pub hash_algo : Text
  pub created_at : ℕ
  pub updated_at : ℕ

-- The zero value.
abbrev pub no_storable : Storable
no_storable = record {
  id = 0;
  account_address = [];
  index = 0;
  key_type = [];
  value = [];
  public_key = [];
  sign_algo = [];
  hash_algo = [];
  created_at = 0;
  updated_at = 0;
}

pub record ProposalKey : Type 0 where
  pub id : ℕ
  pub key_index : ℕ
  pub updated_at : ℕ

pub record Private : Type 0 where
  pub index : ℕ
  pub key_type : Text
  pub value : Text
  pub sign_algo : ℕ
  pub hash_algo : ℕ

-- flow.AccountKey: a key as the chain has it.
pub record AccountKey : Type 0 where
  pub index : ℕ
  pub public_key : Text
  pub sequence_number : ℕ
  pub revoked : Bool
  pub weight : ℤ
  pub sign_algo : ℕ
  pub hash_algo : ℕ

-- The interface Store of keys/store.go.
pub record Store (W : Type 0) : Type 0 where
  pub account_key : Text → W → Result Storable × W
  pub proposal_key_index : ℕ → W → Result ℕ × W
  pub proposal_key_count : W → Result ℕ × W
  pub insert_proposal_key : ProposalKey → W → Option GoError × W
  pub delete_all_proposal_keys : W → Option GoError × W

-- The interface Crypter.
pub record Crypter (W : Type 0) : Type 0 where
  pub encrypt : List ℕ → W → Result (List ℕ) × W
  pub decrypt : List ℕ → W → Result (List ℕ) × W

-- What the code calls of the SDK's package crypto and of crypto/rand. A private key is a number, and so is a
-- signer; `account_key_from` is NewAccountKey().FromPrivateKey.
pub record Crypto (W : Type 0) : Type 0 where
  pub sign_algo_text : ℕ → Text
  pub hash_algo_text : ℕ → Text
  pub sign_algo_of : Text → ℕ
  pub hash_algo_of : Text → ℕ
  pub read_seed : W → Result (List ℕ) × W
  pub generate_private_key : ℕ → List ℕ → Result ℕ
  pub private_key_hex : ℕ → Text
  pub decode_private_key : ℕ → Text → Result ℕ
  pub account_key_from : ℕ → AccountKey
  pub in_memory_signer : ℕ → ℕ → Result ℕ

module _ {W : Type 0} (c : Crypto W) where
  -- local.Generate, with the private key there.
  abbrev generated : ℕ → ℤ → ℕ → ℕ → ℕ → AccountKey × Private
  generated key_index weight sign_algo hash_algo pk = (
    record (c.account_key_from pk) { hash_algo = hash_algo; weight = weight; index = key_index },
    record {
      index = key_index;
      key_type = account_key_type_local;
      value = trim_prefix (c.private_key_hex pk) (bytes "0x");
      sign_algo = sign_algo;
      hash_algo = hash_algo;
    },
  )

  -- local.Generate
  unfoldable pub generate_local : ℕ → ℤ → ℕ → ℕ → W → Result (AccountKey × Private) × W
  generate_local key_index weight sign_algo hash_algo w =
      let (r, w') = c.read_seed w in
      elim r [
        | err e ↦ (err e, w')
        | ok seed ↦ elim (c.generate_private_key sign_algo seed) [
          | err e ↦ (err e, w')
          | ok pk ↦ (ok (generated key_index weight sign_algo hash_algo pk), w')
        ]
      ]

  -- local.Signer
  unfoldable pub local_signer : Private → Result ℕ
  local_signer k = elim (c.decode_private_key k.sign_algo k.value) [
    | err e ↦ err e
    | ok p ↦ c.in_memory_signer p k.hash_algo
  ]
