-- ===== src/Jobs/Service.antt =====
-- jobs/service.go: the service behind the HTTP handlers that list jobs. uuid.Parse is a parameter.
pub mod Lookup
use flow_wallet_api.Prelude.{
  ℕ, ◌≡◌, Bool, true, false, Option, none, some, List, [], Text, bytes, text_eq, ℤ, if◌then◌else◌,
}
use flow_wallet_api.Errors.{GoError, plain, request_error, error_text, Result, ok, err}
use flow_wallet_api.Datastore.{parse_list_options}
use flow_wallet_api.Jobs.Types.{State, other, Job, Store}

-- The zero value of Job, which gorm leaves where it fails.
abbrev pub zero_job : Job
zero_job = record {
  id = 0;
  job_type = [];
  state = other [];
  error_message = [];
  errors = [];
  result = [];
  transaction_id = [];
  exec_count = 0;
  created_at = 0;
  updated_at = 0;
  should_send_notification = false;
  attributes = [];
}

abbrev pub invalid_job_id : GoError
invalid_job_id = request_error 400 (plain (bytes "invalid job id"))

abbrev pub job_not_found : GoError
job_not_found = request_error 404 (plain (bytes "job not found"))

module _ {W : Type 0} (store : Store W) (parse_uuid : Text → Option ℕ) where
  -- List
  unfoldable pub list : ℤ → ℤ → W → Result (List Job) × W
  list limit offset = store.jobs (parse_list_options limit offset)

  -- The end of Details: an error other than "record not found" is dropped.
  found_job : Result Job → Result Job
  found_job (ok j) = ok j
  found_job (err e) =
      if text_eq (error_text e) (bytes "record not found") then err job_not_found else ok zero_job

  -- Details
  unfoldable pub details : Text → W → Result Job × W
  unfolding found_job
  details job_id w = elim (parse_uuid job_id) [
    | none ↦ (err invalid_job_id, w)
    | some id ↦ let (r, w') = store.job id w in (found_job r, w')
  ]
