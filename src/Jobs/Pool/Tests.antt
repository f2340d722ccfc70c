-- ===== src/Jobs/Pool/Tests.antt =====
-- Examples for jobs/workerpool.go: a pool over a table in memory, whose executor always fails.
use flow_wallet_api.Prelude.{◌≤◌, ◌≡◌, refl, ◌⊎◌, false, none, some, [], ◌∷◌, bytes}
use flow_wallet_api.Errors.{
  GoError, error_text, is_permanent_failure, is_chain_connection_error, plain, net_error, ok,
}
use flow_wallet_api.Jobs.Types.{error, no_available_workers, Job, OnJob, send_job_status_job_type}
use flow_wallet_api.Jobs.Store.{is_acceptable, gorm_store}
use flow_wallet_api.Jobs.Store.Contract.{gorm_contract}
use flow_wallet_api.Jobs.Store.Memory.{Memory, memory, some_job, holding}
use flow_wallet_api.Jobs.Pool.{
  WorkerPool, PoolState, system_halted, try_enqueue, schedule, schedule_now, process,
  process_accepted, after_executor, save_outcome, record_outcome, new_worker_pool,
}
use flow_wallet_api.Jobs.Pool.Keeps.{PoolContract}
use flow_wallet_api.Jobs.Pool.Outcome.{Executes, saved_outcome, process_stores_outcome}
use flow_wallet_api.Jobs.Pool.Retry.{FailedRun, no_run, one_more, Tried, FailedRuns-bounded}
use flow_wallet_api.Jobs.Pool.Steps.{schedule_not_lost}
use flow_wallet_api.Jobs.Pool.Notify.{notification_final}

abbrev fails_with : GoError → OnJob Memory
fails_with e j w = (some e, j, w)

-- A pool that runs `executor` on every job, and gives a job one retry.
abbrev pool : OnJob Memory → WorkerPool Memory
pool executor = record {
  store = gorm_store memory;
  capacity = 2;
  worker_count = 1;
  max_job_error_count = 1;
  db_job_poll_interval = 30;
  accepted_grace_period = 100;
  re_schedulable_grace_period = 50;
  executors = λ t. some executor;
  notification_config = record { job_status_webhook_url = none };
  system_service = none;
  marshal = λ r. ok r.result;
  post = λ url body w. (ok 200, w);
  select_stop = λ w. false;
  elapsed = λ w v. 0;
  itoa = λ n. n ∷ [];
}

abbrev broken : GoError
broken = plain (bytes "broken")

abbrev lost : GoError
lost = net_error (bytes "lost")

abbrev failing : WorkerPool Memory
failing = pool (fails_with broken)

abbrev offline : WorkerPool Memory
offline = pool (fails_with lost)

abbrev started : PoolState Memory
started = record { world = holding some_job; queue = []; stopped = false }

pool_keeps :
    (executor : OnJob Memory) (w : Memory) → (system_halted (pool executor) w).1.held ≡ w.held
unfolding system_halted
pool_keeps executor w = refl

abbrev pool_contract : (executor : OnJob Memory) → PoolContract (pool executor)
pool_contract executor = record {
  store_contract = gorm_contract memory;
  halted_keeps = pool_keeps executor;
}

runs :
    (e : GoError)
    → Executes (pool (fails_with e)) (pool_contract (fails_with e)) (fails_with e) some_job started
unfolding gorm_store is_acceptable
runs e = record { accepts = refl; found = refl }

process_stores_outcome_example :
    ((process failing some_job started).0 ≡ none)
    × ((process failing some_job started).1.world.held 1
        ≡ some
            (saved_outcome failing
              (pool_contract (fails_with broken))
              (fails_with broken)
              some_job
              started).1)
unfolding gorm_store record_outcome is_acceptable is_chain_connection_error
process_stores_outcome_example =
    process_stores_outcome failing (pool_contract (fails_with broken)) (fails_with broken) some_job
      started (runs broken) refl refl

-- The pool after one try and after two, and the job as its row says after the first.
abbrev tried_once : PoolState Memory
tried_once = (process failing some_job started).1

abbrev retried_job : Job
retried_job = record some_job {
  state = error;
  error_message = bytes "broken";
  errors = bytes "broken" ∷ [];
  exec_count = 1;
  updated_at = 1000;
}

abbrev tried_twice : PoolState Memory
tried_twice = (process failing retried_job tried_once).1

first_run : FailedRun failing (pool_contract (fails_with broken)) 1 started tried_once
unfolding process process_accepted after_executor save_outcome record_outcome gorm_store
    is_acceptable is_chain_connection_error is_permanent_failure error_text
first_run = record {
  job = some_job;
  executor = fails_with broken;
  error_value = broken;
  named = refl;
  runs = runs broken;
  fails = refl;
  connected = refl;
  ordinary = refl;
  same_id = refl;
  same_count = refl;
  saved = refl;
  unwritten = refl;
}

second_run : FailedRun failing (pool_contract (fails_with broken)) 1 tried_once tried_twice
unfolding process process_accepted after_executor save_outcome record_outcome gorm_store
    is_acceptable is_chain_connection_error is_permanent_failure error_text
second_run = record {
  job = retried_job;
  executor = fails_with broken;
  error_value = broken;
  named = refl;
  runs = record { accepts = refl; found = refl };
  fails = refl;
  connected = refl;
  ordinary = refl;
  same_id = refl;
  same_count = refl;
  saved = refl;
  unwritten = refl;
}

FailedRuns-bounded_example :
    (1 ≤ 1) × Tried failing (pool_contract (fails_with broken)) 1 tried_twice 2
FailedRuns-bounded_example =
    FailedRuns-bounded failing (pool_contract (fails_with broken)) 1 1 started tried_twice some_job
      refl refl (one_more (one_more no_run first_run) second_run)

-- A pool with no room.
abbrev full : PoolState Memory
full = record { world = holding some_job; queue = some_job ∷ some_job ∷ []; stopped = false }

schedule_not_lost_example :
    ((schedule failing some_job full).2.queue ≡ some_job ∷ some_job ∷ some_job ∷ [])
    ⊎ (((schedule failing some_job full).1.state ≡ no_available_workers)
        × ((schedule failing some_job full).2.world.held 1
            ≡ some (schedule failing some_job full).1))
unfolding schedule schedule_now try_enqueue system_halted gorm_store
schedule_not_lost_example =
    schedule_not_lost failing (pool_contract (fails_with broken)) some_job full refl refl

abbrev notification : Job
notification = record some_job { job_type = send_job_status_job_type }

notification_final_example :
    (process (new_worker_pool failing) notification full).1.queue ≡ full.queue
unfolding new_worker_pool
notification_final_example =
    notification_final failing (gorm_contract memory) notification full refl
