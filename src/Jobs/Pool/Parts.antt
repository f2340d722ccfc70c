-- ===== src/Jobs/Pool/Parts.antt =====
-- What the worker pool (jobs/workerpool.go, jobs/notification.go) is made of: its configuration, and the
-- state that its goroutines share.
use flow_wallet_api.Prelude.{ℕ, Bool, true, false, Option, List, Text, is_some}
use flow_wallet_api.Errors.{Result}
use flow_wallet_api.System.{SystemService}
use flow_wallet_api.Jobs.Types.{Job, JsonResponse, Store, JobQueueStatus, OnJob}

-- NotificationConfig. The webhook's timeout is the HTTP client's affair.
pub record NotificationConfig : Type 0 where
  pub job_status_webhook_url : Option Text

-- ShouldSendJobStatus
abbrev pub should_send_job_status : NotificationConfig → Bool
should_send_job_status cfg = is_some cfg.job_status_webhook_url

-- WorkerPoolImpl, less its channels. `marshal` is encoding/json, `post` sends the webhook request and
-- returns the status code, `itoa` prints a number, `elapsed` is time.Since, `select_stop` is the runtime's choice between two ready cases of a select.
pub record WorkerPool (W : Type 0) : Type 0 where
  pub store : Store W
  pub capacity : ℕ
  pub worker_count : ℕ
  pub max_job_error_count : ℕ
  pub db_job_poll_interval : ℕ
  pub accepted_grace_period : ℕ
  pub re_schedulable_grace_period : ℕ
  pub executors : Text → Option (OnJob W)
  pub notification_config : NotificationConfig
  pub system_service : Option (SystemService W)
  pub marshal : JsonResponse → Result Text
  pub post : Text → Text → W → Result ℕ × W
  pub select_stop : W → Bool
  pub elapsed : W → W → ℕ
  pub itoa : ℕ → Text

-- What the goroutines share: the world, the jobs waiting in jobChan, and whether stopChan is closed.
-- jobChan is buffered (its capacity is positive); that Stop closes it afterwards ends the model.
pub record PoolState (W : Type 0) : Type 0 where
  pub world : W
  pub queue : List Job
  pub stopped : Bool

-- How a select over stopChan and jobChan ends; `waits` is a blocking select with no case ready.
pub data Sent : Type 0 where
  sent not_sent waits : Sent

abbrev pub is_sent : Sent → Bool
is_sent sent = true
is_sent _ = false

abbrev pub is_waits : Sent → Bool
is_waits waits = true
is_waits _ = false

-- WorkerPoolStatus
pub record WorkerPoolStatus : Type 0 where
  pub job_queue_status : JobQueueStatus
  pub pool_capacity : ℕ
  pub pool_worker_count : ℕ
