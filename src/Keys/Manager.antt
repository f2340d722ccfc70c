-- ===== src/Keys/Manager.antt =====
-- keys/basic/keys.go and keys/basic/init.go: the key manager over a key store, a crypter and the Flow client. The
-- signers and generators of the cloud key services are parameters. An index out of range panics: none.
pub mod Storage
pub mod Proposals
pub mod Tests
use flow_wallet_api.Prelude.{
  ℕ, suc, ◌+◌, ◌%◌, ◌^◌, Bool, true, false, Option, none, some, List, [], ◌∷◌, ◌++◌, Text, bytes,
  text_eq, ltb, ltb_ℤ, get_elem?, count_by, not, ℤ, pos, if◌then◌else◌,
}
use flow_wallet_api.Errors.{GoError, plain, wrap_after, Result, ok, err}
use flow_wallet_api.FlowHelpers.{Sdk, format_address}
use flow_wallet_api.Transactions.{Authorizer}
use flow_wallet_api.Keys.Types.{
  account_key_type_local, account_key_type_google_kms, account_key_type_aws_kms,
  admin_proposal_key_count_mismatch, Storable, ProposalKey, Private, AccountKey, Store, Crypter,
  Crypto, generate_local, local_signer, no_storable,
}

-- What the manager reads of configs.Config.
pub record Config : Type 0 where
  pub admin_address : Text
  pub admin_key_index : ℕ
  pub admin_key_type : Text
  pub admin_private_key : Text
  pub admin_proposal_key_count : ℕ
  pub default_key_index : ℕ
  pub default_key_weight : ℤ
  pub default_key_type : Text
  pub default_sign_algo : Text
  pub default_hash_algo : Text
  pub encryption_key_type : Text

-- keys/google and keys/aws: Generate and Signer.
pub record CloudKeys (W : Type 0) : Type 0 where
  pub generate : ℕ → ℤ → W → Result (AccountKey × Private) × W
  pub signer : Private → W → Result ℕ × W

-- KeyManager, with the SDK and the providers that it calls. `get_account` is the client's GetAccount, of which
-- only the keys are read; `address_eq` compares addresses,
-- `itoa` is fmt's %d.
pub record KeyManager (W A : Type 0) : Type 0 where
  pub store : Store W
  pub get_account : A → W → Result (List AccountKey) × W
  pub crypter : Crypter W
  pub cfg : Config
  pub sdk : Sdk A
  pub address_eq : A → A → Bool
  pub crypto : Crypto W
  pub google : CloudKeys W
  pub aws : CloudKeys W
  pub itoa : ℕ → Text

-- flow.AccountKeyWeightThreshold
abbrev account_key_weight_threshold : ℤ
account_key_weight_threshold = pos 1000

-- NewKeyManager: the weight that it leaves in the configuration, and the choice of a crypter from three that
-- were made with the configured key.
unfoldable pub default_weight : ℤ → ℤ
default_weight weight = if ltb_ℤ weight (pos 0) then account_key_weight_threshold else weight

unfoldable pub choose_crypter : {W : Type 0} → Text → Crypter W → Crypter W → Crypter W → Crypter W
choose_crypter key_type aes google aws =
    if text_eq key_type account_key_type_google_kms
    then google
    else if text_eq key_type account_key_type_aws_kms
    then aws
    else aes

-- An on-chain key that is not revoked.
abbrev pub is_usable : AccountKey → Bool
is_usable k = not k.revoked

abbrev pub count_error : Text → Text → Text → GoError
count_error configured place count =
    wrap_after (bytes "configured: " ++ (configured ++ (place ++ (count ++ bytes ", "))))
      admin_proposal_key_count_mismatch

-- The row that InitAdminProposalKeys inserts.
abbrev pub new_proposal_key : ℕ → ProposalKey
new_proposal_key index = record { id = 0; key_index = index; updated_at = 0 }

module _ {W A : Type 0} (m : KeyManager W A) where
  open m use {store, get_account, crypter, cfg, sdk, address_eq, crypto, google, aws, itoa}

  -- The field adminAccountKey, as NewKeyManager fills it.
  abbrev pub admin_account_key : Private
  admin_account_key = record {
    index = cfg.admin_key_index;
    key_type = cfg.admin_key_type;
    value = cfg.admin_private_key;
    sign_algo = crypto.sign_algo_of cfg.default_sign_algo;
    hash_algo = crypto.hash_algo_of cfg.default_hash_algo;
  }

  abbrev pub admin : A
  admin = sdk.hex_to_address cfg.admin_address

  -- The second half of CheckAdminProposalKeyCount.
  check_stored : W → Option GoError × W
  check_stored w =
      let (r, w') = store.proposal_key_count w in
      elim r [
        | err e ↦ (
          some (
              wrap_after (bytes "error while fetching admin proposal key count from database: ") e),
          w',
        )
        | ok count ↦
            if ltb count cfg.admin_proposal_key_count
            then (
              some (
                  count_error (itoa cfg.admin_proposal_key_count) (bytes ", in database: ")
                    (itoa count)),
              w',
            )
            else (none, w')
      ]

  -- CheckAdminProposalKeyCount
  pub check_admin_proposal_key_count : W → Option GoError × W
  check_admin_proposal_key_count w =
      let (r, w') = get_account admin w in
      elim r [
        | err e ↦
            (some (wrap_after (bytes "error while fetching admin account from chain: ") e), w')
        | ok keys ↦
            if ltb (count_by is_usable keys) cfg.admin_proposal_key_count
            then (
              some (
                  count_error (itoa cfg.admin_proposal_key_count) (bytes ", onchain: ")
                    (itoa (count_by is_usable keys))),
              w',
            )
            else check_stored w'
      ]

  -- The loop of InitAdminProposalKeys: the uint16 count and the error that it returns.
  insert_usable : List AccountKey → ℕ → W → ℕ × Option GoError × W
  insert_usable [] count w = (count, none, w)
  insert_usable (k ∷ keys) count w =
      let (e, w') = store.insert_proposal_key (new_proposal_key k.index) w in
      let skipped = insert_usable keys count w in
      let inserted = insert_usable keys ((count + 1) % 2 ^ 16) w' in
      if not k.revoked then elim e [ some x ↦ (count, some x, w') | none ↦ inserted ] else skipped

  -- InitAdminProposalKeys
  pub init_admin_proposal_keys : W → ℕ × Option GoError × W
  init_admin_proposal_keys w =
      let (r, w') = get_account admin w in
      elim r [
        | err e ↦ (0, some e, w')
        | ok keys ↦
            let (e, w'') = store.delete_all_proposal_keys w' in
            elim e [ some x ↦ (0, some x, w'') | none ↦ insert_usable keys 0 w'' ]
      ]

  -- Generate
  pub generate : ℕ → ℤ → W → Result (AccountKey × Private) × W
  generate key_index weight w =
      if text_eq cfg.default_key_type account_key_type_local
      then generate_local crypto key_index weight (crypto.sign_algo_of cfg.default_sign_algo)
          (crypto.hash_algo_of cfg.default_hash_algo) w
      else if text_eq cfg.default_key_type account_key_type_google_kms
      then google.generate key_index weight w
      else if text_eq cfg.default_key_type account_key_type_aws_kms
      then aws.generate key_index weight w
      else (
        err (plain (bytes "keyStore.Generate() not implmented for " ++ cfg.default_key_type)),
        w,
      )

  -- GenerateDefault
  pub generate_default : W → Result (AccountKey × Private) × W
  generate_default = generate cfg.default_key_index cfg.default_key_weight

  -- The storable key that Save makes around an encrypted value.
  abbrev pub saved : Private → List ℕ → Storable
  saved key value = record no_storable {
    index = key.index;
    key_type = key.key_type;
    value = value;
    sign_algo = crypto.sign_algo_text key.sign_algo;
    hash_algo = crypto.hash_algo_text key.hash_algo;
  }

  -- Save
  pub save : Private → W → Result Storable × W
  save key w =
      let (r, w') = crypter.encrypt key.value w in
      elim r [ err e ↦ (err e, w') | ok value ↦ (ok (saved key value), w') ]

  -- Load
  pub load : Storable → W → Result Private × W
  load key w =
      let (r, w') = crypter.decrypt key.value w in
      elim r [
        | err e ↦ (err e, w')
        | ok value ↦ (
          ok (record {
            index = key.index;
            key_type = key.key_type;
            value = value;
            sign_algo = crypto.sign_algo_of key.sign_algo;
            hash_algo = crypto.hash_algo_of key.hash_algo;
          }),
          w',
        )
      ]

  -- signerForKey
  pub signer_for_key : Private → W → Result ℕ × W
  signer_for_key k w =
      if text_eq k.key_type account_key_type_local
      then (local_signer crypto k, w)
      else if text_eq k.key_type account_key_type_google_kms
      then google.signer k w
      else if text_eq k.key_type account_key_type_aws_kms
      then aws.signer k w
      else (err (plain (bytes "key.Type not recognised: " ++ k.key_type)), w)

  -- The authorizer with the on-chain key at a position.
  abbrev authorizer_at : A → List AccountKey → ℕ → ℕ → Option (Result (Authorizer A))
  authorizer_at address keys position signer = elim (get_elem? keys position) [
    | none ↦ none
    | some k ↦ some (
        ok (record {
          address = address;
          key_index = k.index;
          sequence_number = k.sequence_number;
          signer = signer;
        }))
  ]

  -- The end of MakeAuthorizer and of AdminProposalKey.
  authorize : A → Private → ℕ → W → Option (Result (Authorizer A)) × W
  authorize address k position w =
      let (r, w') = get_account address w in
      elim r [
        | err e ↦ (some (err e), w')
        | ok keys ↦
            let (s, w'') = signer_for_key k w' in
            elim s [
              | err e ↦ (some (err e), w'')
              | ok signer ↦ (authorizer_at address keys position signer, w'')
            ]
      ]

  -- The key of MakeAuthorizer.
  key_for : A → W → Result Private × W
  key_for address w =
      if address_eq address admin
      then (ok admin_account_key, w)
      else (let (r, w') = store.account_key (format_address sdk address) w in
          elim r [ err e ↦ (err e, w') | ok sk ↦ load sk w' ])

  -- MakeAuthorizer, and so AdminAuthorizer of the admin's address and UserAuthorizer.
  pub make_authorizer : A → W → Option (Result (Authorizer A)) × W
  make_authorizer address w =
      let (r, w') = key_for address w in
      elim r [ err e ↦ (some (err e), w') | ok k ↦ authorize address k k.index w' ]

  -- AdminProposalKey
  pub admin_proposal_key : W → Option (Result (Authorizer A)) × W
  admin_proposal_key w =
      let (r, w') = store.proposal_key_index cfg.admin_proposal_key_count w in
      elim r [
        | err e ↦ (some (err (wrap_after (bytes "unable to get admin proposal key: ") e)), w')
        | ok index ↦ authorize admin admin_account_key index w'
      ]
