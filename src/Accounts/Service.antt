-- ===== src/Accounts/Service.antt =====
-- accounts/service.go: the operations on accounts as they are stored, and those that only create a job.
pub mod Custody
pub mod Tests
use flow_wallet_api.Prelude.{
  ℕ, Bool, not, Option, none, some, List, [], ◌∷◌, ◌++◌, Text, bytes, text_eq, contains, ℤ, pos,
  if◌then◌else◌, map,
}
use flow_wallet_api.Errors.{GoError, plain, error_text, Result, ok, err}
use flow_wallet_api.Call.{
  Call, pure, throw, lift, try, fail_if, check, modify, returned, failed, of_result, of_error,
  ◌>>=◌, ◌>>◌,
}
use flow_wallet_api.Datastore.{parse_list_options}
use flow_wallet_api.FlowHelpers.{hex_string, validate_address}
use flow_wallet_api.Jobs.Types.{Job}
use flow_wallet_api.Jobs.Pool.{PoolState, create_job, schedule}
use flow_wallet_api.Keys.Types.{Storable}
use flow_wallet_api.Accounts.Types.{Account, no_account, ServiceImpl, account_type_non_custodial}

abbrev pub account_create_job_type : Text
account_create_job_type = bytes "account_create"

abbrev pub sync_account_key_count_job_type : Text
sync_account_key_count_job_type = bytes "sync_account_key_count"

abbrev pub add_new_key_job_type : Text
add_new_key_job_type = bytes "add_new_key"

abbrev pub revoke_key_job_type : Text
revoke_key_job_type = bytes "revoke_key"

abbrev pub only_non_custodial : GoError
only_non_custodial = plain (bytes "only non-custodial accounts supported")

-- The loop that strips the private keys.
abbrev pub without_value : Storable → Storable
without_value k = record k { value = [] }

abbrev pub on_world : {W A : Type 0} → (W → A × W) → PoolState W → A × PoolState W
on_world f st = let (a, w) = f st.world in (a, record st { world = w })

module _ {W A Tx E : Type 0} (svc : ServiceImpl W A Tx E) where
  open svc use {cfg, store, wp, sdk, attributes}

  -- List
  unfoldable pub list_accounts : ℤ → ℤ → W → Result (List Account) × W
  list_accounts limit offset = store.accounts (parse_list_options limit offset)

  -- AddNonCustodialAccount
  unfoldable pub add_non_custodial_account : Text → W → Result Account × W
  add_non_custodial_account address w =
      let (e, a, w') =
        store.insert_account
          (record no_account {
            address = hex_string address;
            account_type = account_type_non_custodial;
          })
          w in
      elim e [ none ↦ (ok a, w') | some x ↦ (err x, w') ]

  -- DeleteNonCustodialAccount
  unfoldable pub delete_non_custodial_account : Text → W → Option GoError × W
  delete_non_custodial_account address w =
      let (r, w') = store.account (hex_string address) w in
      elim r [
        | err e ↦
            if contains (error_text e) (bytes "record not found") then (none, w') else (some e, w')
        | ok a ↦
            if not (text_eq a.account_type account_type_non_custodial)
            then (some only_non_custodial, w')
            else store.hard_delete_account a w'
      ]

  -- Details
  unfoldable pub account_details : Text → W → Result Account × W
  account_details address w = elim (validate_address sdk address) [
    | err e ↦ (err e, w)
    | ok valid ↦
        let (r, w') = store.account valid w in
        elim r [
          | err e ↦ (err e, w')
          | ok a ↦ (ok (record a { keys = map without_value a.keys }), w')
        ]
  ]

  -- GetKeysByType
  unfoldable pub get_keys_by_type : Text → W → Result (List Storable) × W
  get_keys_by_type = store.get_keys_by_type

  -- CreateJob and Schedule, as every asynchronous operation calls them.
  unfoldable pub schedule_new : Text → Text → Call (PoolState W) Job
  schedule_new job_type attrs = do
    job ← lift (on_world (create_job wp job_type [] attrs))
    λ st.
        let (e, job', st') = schedule wp job st in
        elim e [ none ↦ returned job' st' | some x ↦ failed x st' ]

  -- SyncAccountKeyCount. int(DefaultAccountKeyCount) is not negative for any count that fits the memory.
  unfoldable pub sync_account_key_count_job : A → Call (PoolState W) Job
  unfolding schedule_new
  sync_account_key_count_job address =
      if not (sdk.is_valid address)
      then throw (
          plain (
            bytes "not a valid address for "
            ++ (cfg.chain_id ++ (bytes ": \"" ++ (sdk.address_hex address ++ bytes "\"")))))
      else do
        attrs ← try (attributes.marshal_sync address (pos cfg.default_account_key_count))
        schedule_new sync_account_key_count_job_type attrs

  -- AddNewKey
  unfoldable pub add_new_key : A → Call (PoolState W) Job
  unfolding schedule_new
  add_new_key address = do
    attrs ← try (attributes.marshal_add address)
    schedule_new add_new_key_job_type attrs

  -- RevokeKey
  unfoldable pub revoke_key_job : A → ℕ → Call (PoolState W) Job
  unfolding schedule_new
  revoke_key_job address old_key_index = do
    attrs ← try (attributes.marshal_revoke address old_key_index)
    schedule_new revoke_key_job_type attrs
