-- ===== src/Jobs/Types.antt =====
-- jobs/jobs.go and jobs/store.go: the data of the job queue and the interface of its store. A UUID is
-- an opaque number, a time is in nanoseconds. DeletedAt, which nothing sets, is left out.
use flow_wallet_api.Prelude.{ℕ, Bool, true, false, Option, List, Text, bytes}
use flow_wallet_api.Errors.{GoError, Result}
use flow_wallet_api.Datastore.{ListOptions}

-- `type State string`: the six constants, and any other string.
pub data State : Type 0 where
  init accepted no_available_workers error complete failed : State
  other : Text → State

pub record Job : Type 0 where
  pub id : ℕ
  pub job_type : Text
  pub state : State
  pub error_message : Text
  pub errors : List Text
  pub result : Text
  pub transaction_id : Text
  pub exec_count : ℕ
  pub created_at : ℕ
  pub updated_at : ℕ
  pub should_send_notification : Bool
  pub attributes : Text

pub record JobQueueStatus : Type 0 where
  pub jobs_init : ℕ
  pub jobs_not_accepted : ℕ
  pub jobs_accepted : ℕ
  pub jobs_errored : ℕ
  pub jobs_failed : ℕ
  pub jobs_completed : ℕ

pub record StatusQuery : Type 0 where
  pub state : State
  pub count : ℕ

pub record JsonResponse : Type 0 where
  pub id : ℕ
  pub job_type : Text
  pub state : State
  pub error_message : Text
  pub errors : List Text
  pub result : Text
  pub transaction_id : Text
  pub created_at : ℕ
  pub updated_at : ℕ

-- Job.ToJSONResponse
unfoldable pub to_json_response : Job → JsonResponse
to_json_response j = record {
  id = j.id;
  job_type = j.job_type;
  state = j.state;
  error_message = j.error_message;
  errors = j.errors;
  result = j.result;
  transaction_id = j.transaction_id;
  created_at = j.created_at;
  updated_at = j.updated_at;
}

abbrev pub is_init : State → Bool
is_init init = true
is_init _ = false

abbrev pub is_accepted : State → Bool
is_accepted accepted = true
is_accepted _ = false

abbrev pub is_no_available_workers : State → Bool
is_no_available_workers no_available_workers = true
is_no_available_workers _ = false

abbrev pub is_error : State → Bool
is_error error = true
is_error _ = false

abbrev pub is_complete : State → Bool
is_complete complete = true
is_complete _ = false

abbrev pub is_failed : State → Bool
is_failed failed = true
is_failed _ = false

abbrev pub send_job_status_job_type : Text
send_job_status_job_type = bytes "send_job_status"

-- What a call through a *Job returns: its error, the job as it left it, and the world.
abbrev pub OnJob : Type 0 → Type 0
OnJob W = Job → W → Option GoError × Job × W

-- The interface Store of jobs/store.go, over a world `W` that holds the database.
pub record Store (W : Type 0) : Type 0 where
  pub jobs : ListOptions → W → Result (List Job) × W
  pub job : ℕ → W → Result Job × W
  pub insert_job : OnJob W
  pub update_job : OnJob W
  pub accept_job : ℕ → OnJob W
  pub schedulable_jobs : ℕ → ℕ → ListOptions → W → Result (List Job) × W
  pub status : W → Result (List StatusQuery) × W
