-- ===== src/Accounts/Keys.antt =====
-- The keys of an account: syncAccountKeyCount, addKey, revokeKey (accounts/service.go). Log lines are left out.
pub mod Order
pub mod Sync
pub mod Revoke
pub mod Jobs
pub mod Tests
use flow_wallet_api.Prelude.{
  ℕ, suc, zero, ◌+◌, ◌-◌, ◌%◌, ◌^◌, Bool, true, false, not, ◌&&◌, Option, none, some, List, [], ◌∷◌,
  ◌++◌, Text, bytes, text_eq, length, get_elem?, drop, count_by, ltb, leb, ◌==◌, ℤ, pos, negsuc,
  ltb_ℤ, if◌then◌else◌,
}
use flow_wallet_api.Errors.{GoError, plain, invalid_job_type, Result, ok, err}
use flow_wallet_api.Call.{
  Run, returned, failed, panicked, Call, pure, throw, lift, try, deref, fail_if, check, on_return,
  of_result, of_error, and_then, ◌>>=◌, ◌>>◌,
}
use flow_wallet_api.FlowHelpers.{format_address}
use flow_wallet_api.Templates.{trim_prefix}
use flow_wallet_api.Jobs.Types.{Job}
use flow_wallet_api.Transactions.Types.{general, Transaction, Argument, cadence_value}
use flow_wallet_api.Keys.Types.{Storable, no_storable, AccountKey, account_key_type_local}
use flow_wallet_api.Accounts.Types.{Account, ServiceImpl}
use flow_wallet_api.Accounts.Service.{
  sync_account_key_count_job_type, add_new_key_job_type, revoke_key_job_type,
}

-- sort.SliceStable by Index, for any type with an index.
abbrev pub insert_by : {K : Type 0} → (K → ℕ) → K → List K → List K
insert_by index k [] = k ∷ []
insert_by index k (x ∷ xs) =
    let rest = insert_by index k xs in if leb (index k) (index x) then k ∷ x ∷ xs else x ∷ rest

abbrev pub sort_by : {K : Type 0} → (K → ℕ) → List K → List K
sort_by index [] = []
sort_by index (k ∷ ks) = insert_by index k (sort_by index ks)

-- The last entry, and so keys[len(keys)-1].
abbrev pub last? : {K : Type 0} → List K → Option K
last? [] = none
last? (k ∷ []) = some k
last? (k ∷ l ∷ ks) = last? (l ∷ ks)

-- A uint32 that is one more.
abbrev pub next_uint32 : ℕ → ℕ
next_uint32 i = (i + 1) % 2 ^ 32

abbrev pub storable_index : Storable → ℕ
storable_index k = k.index

-- The key that syncAccountKeyCount appends.
abbrev pub cloned : Storable → ℕ → Storable
cloned source index = record no_storable {
  account_address = source.account_address;
  index = index;
  key_type = source.key_type;
  value = source.value;
  public_key = source.public_key;
  sign_algo = source.sign_algo;
  hash_algo = source.hash_algo;
}

abbrev pub too_few_keys : Text → GoError
too_few_keys count =
    plain (bytes "invalid number of keys specified: " ++ (count ++ bytes ", min. 1 expected"))

abbrev pub on_chain_index : AccountKey → ℕ
on_chain_index k = k.index

-- The key that addKey appends; its type is always "local".
abbrev pub new_key : Text → ℕ → Storable → Storable
new_key account_address index encrypted = record (cloned encrypted index) {
  account_address = account_address;
  key_type = account_key_type_local;
}

abbrev pub only_one_key : Text → GoError
only_one_key address =
    plain (bytes "account " ++ (address ++ bytes " only has one key, cannot revoke"))

abbrev pub no_such_key : Text → Text → GoError
no_such_key index address = plain (
    bytes "failed to find key "
    ++ (index ++ (bytes " index in database for account " ++ (address ++ bytes " "))))

-- The loop of revokeKey: the last key with the index.
abbrev pub key_to_delete : GoError → ℕ → List Storable → Result Storable
key_to_delete e index [] = err e
key_to_delete e index (k ∷ ks) =
    let rest = key_to_delete e index ks in
    elim rest [ ok later ↦ ok later | err x ↦ if k.index == index then ok k else err x ]

-- "%s:%d"
abbrev pub count_text : Text → Text → Text
count_text address count = address ++ (bytes ":" ++ count)

-- %d of an int.
abbrev pub int_text : (ℕ → Text) → ℤ → Text
int_text itoa (pos n) = itoa n
int_text itoa (negsuc n) = bytes "-" ++ itoa (suc n)

-- s[2:], which panics on a shorter text.
abbrev pub from_two : Text → Option Text
from_two s = if ltb (length s) 2 then none else some (drop 2 s)

module _ {W A Tx E : Type 0} (svc : ServiceImpl W A Tx E) where
  open svc use {cfg, store, km, get_account, create_sync, sdk, codec, itoa}

  -- The loop over the clones: the keys, and the public keys as arguments.
  clone_loop : ℕ → Storable → List Storable → List Text → Call W (List Storable × List Text)
  clone_loop zero source keys pbks = pure (keys, pbks)
  clone_loop (suc n) source keys pbks = do
    bare ← deref (from_two source.public_key)
    pbk ← try (codec.new_string bare)
    newest ← deref (last? keys)
    clone_loop n source (keys ++ (cloned source (next_uint32 newest.index) ∷ []))
        (pbks ++ (pbk ∷ []))

  -- Create with sync set, where the code reads the id of the transaction also beside an error: it is nil then.
  abbrev pub create_or_panic : Text → Text → List Argument → Call W (Transaction E)
  create_or_panic address code arguments w =
      let (r, w') = create_sync address code arguments general w in
      elim r [ ok tx ↦ returned tx w' | err e ↦ panicked w' ]

  -- syncAccountKeyCount, where keys are missing.
  pub add_clones : Account → Storable → ℕ → Call W (ℕ × Text)
  add_clones account source clone_count = do
    (keys, pbks) ← clone_loop clone_count source (sort_by storable_index account.keys) []
    tx ←
        create_or_panic account.address cfg.add_account_keys
          (cadence_value (codec.new_array pbks) ∷ [])
    check (store.save_account (record account { keys = keys }))
    pure (length keys, tx.transaction_id)

  -- syncAccountKeyCount, once the valid keys on the chain are counted.
  pub match_count : Account → Storable → ℕ → ℤ → Call W (ℕ × Text)
  match_count account source valid (negsuc n) = pure (0, [])
  match_count account source valid (pos num_keys) =
      if ltb valid num_keys
      then add_clones account source (num_keys - valid)
      else if ltb num_keys valid
      then pure (0, [])
      else pure (num_keys, [])

  abbrev pub is_valid_key : ℕ → AccountKey → Bool
  is_valid_key pbk k = not k.revoked && codec.same_key k pbk

  -- syncAccountKeyCount
  pub sync_account_key_count : A → ℤ → Call W (ℕ × Text)
  sync_account_key_count address num_keys = do
    fail_if (ltb_ℤ num_keys (pos 1)) (too_few_keys (int_text itoa num_keys))
    keys ← lift (get_account address)
    account ← lift (store.account (format_address sdk address))
    source ← deref (get_elem? account.keys 0)
    pbk ←
        try (codec.decode_public_key source.sign_algo (trim_prefix source.public_key (bytes "0x")))
    match_count account source (count_by (is_valid_key pbk) keys) num_keys

  -- getNextIndex
  pub get_next_index : A → Call W ℕ
  get_next_index address = do
    keys ← lift (get_account address)
    newest ← deref (last? (sort_by on_chain_index keys))
    pure (next_uint32 newest.index)

  -- createNewKeyTx
  pub create_new_key_tx : Text → AccountKey → Call W (Transaction E)
  create_new_key_tx account_address key = do
    entry ← try (codec.crypto_key key)
    lift (create_sync account_address cfg.add_account_key (cadence_value entry ∷ []) general)

  -- addKey
  pub add_key : A → Call W Account
  add_key address = do
    account ← lift (store.account (format_address sdk address))
    source ← deref (get_elem? (sort_by storable_index account.keys) 0)
    _ ← try (codec.decode_public_key source.sign_algo (trim_prefix source.public_key (bytes "0x")))
    (key, private) ← lift km.generate_default
    encrypted ← lift (km.save private)
    index ← get_next_index address
    let added = record account {
      keys =
          sort_by storable_index account.keys
          ++ (new_key account.address index (record encrypted { public_key = key.public_key })
              ∷ []);
    }
    _ ← create_new_key_tx account.address key
    check (store.save_account added)
    pure added

  -- createRevokeKeyTx
  pub create_revoke_key_tx : Text → ℕ → Call W (Transaction E)
  create_revoke_key_tx account_address old_key_index = lift (
      create_sync account_address cfg.remove_account_key
        (cadence_value (codec.new_int old_key_index) ∷ []) general)

  -- revokeKey. The account is returned as it was read, with the deleted key.
  pub revoke_key : A → ℕ → Call W Account
  revoke_key address old_key_index = do
    account ← lift (store.account (format_address sdk address))
    fail_if (length account.keys == 1) (only_one_key account.address)
    key ← try (
        key_to_delete (no_such_key (itoa old_key_index) account.address) old_key_index account.keys)
    _ ← create_revoke_key_tx account.address old_key_index
    check (store.delete_key_for_account account key)
    pure account
