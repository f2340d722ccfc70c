-- ===== src/Accounts/Keys/Jobs.antt =====
-- The executors of the jobs on an account's keys (accounts/jobs.go).
use flow_wallet_api.Prelude.{true, false, not, text_eq, length, if◌then◌else◌}
use flow_wallet_api.Errors.{invalid_job_type}
use flow_wallet_api.Call.{Run, failed, pure, try, on_return, ◌>>=◌}
use flow_wallet_api.Jobs.Types.{Job}
use flow_wallet_api.Accounts.Types.{ServiceImpl}
use flow_wallet_api.Accounts.Service.{
  sync_account_key_count_job_type, add_new_key_job_type, revoke_key_job_type,
}
use flow_wallet_api.Accounts.Keys.{count_text, sync_account_key_count, add_key, revoke_key}

module _ {W A Tx E : Type 0} (svc : ServiceImpl W A Tx E) where
  open svc use {attributes, sdk, itoa}

  -- executeSyncAccountKeyCountJob
  pub execute_sync_account_key_count_job : Job → W → Job × Run W (Unit {0})
  execute_sync_account_key_count_job j w =
      if not (text_eq j.job_type sync_account_key_count_job_type)
      then (j, failed invalid_job_type w)
      else (let j' = record j { should_send_notification = true } in
          on_return j' (
            (do
              (address, num_keys) ← try (attributes.unmarshal_sync j.attributes)
              (count, id) ← sync_account_key_count svc address num_keys
              pure (record j' {
                transaction_id = id;
                result = count_text (sdk.address_hex address) (itoa count);
              }))
              w))

  -- executeAddNewKeyJob
  pub execute_add_new_key_job : Job → W → Job × Run W (Unit {0})
  execute_add_new_key_job j w =
      if not (text_eq j.job_type add_new_key_job_type)
      then (j, failed invalid_job_type w)
      else (let j' = record j { should_send_notification = false } in
          on_return j' (
            (do
              address ← try (attributes.unmarshal_add j.attributes)
              account ← add_key svc address
              pure (record j' { result = count_text account.address (itoa (length account.keys)) }))
              w))

  -- executeRevokeKeyJob
  pub execute_revoke_key_job : Job → W → Job × Run W (Unit {0})
  execute_revoke_key_job j w =
      if not (text_eq j.job_type revoke_key_job_type)
      then (j, failed invalid_job_type w)
      else (let j' = record j { should_send_notification = false } in
          on_return j' (
            (do
              (address, index) ← try (attributes.unmarshal_revoke j.attributes)
              account ← revoke_key svc address index
              pure (record j' { result = count_text account.address (itoa (length account.keys)) }))
              w))
