-- ===== src/Jobs/Pool.antt =====
-- jobs/workerpool.go and jobs/notification.go: the worker pool over any Store. A goroutine's step is
-- a function on the pool's shared state; log lines are left out.
pub mod Keeps
pub mod Outcome
pub mod Retry
pub mod Counts
pub mod Notify
pub mod Queue
pub mod Steps
pub mod Tests
mod Parts
pub use Parts.*
use flow_wallet_api.Prelude.{
  ℕ, ◌-◌, Bool, true, false, not, ◌&&◌, ◌||◌, Option, none, some, List, [], ◌∷◌, ◌++◌, Text, bytes,
  ltb, ◌==◌, text_eq, length, is_some, pos, if◌then◌else◌,
}
use flow_wallet_api.Errors.{
  GoError, plain, wrap_after, wrap_before, permanent_failure, invalid_job_type, error_text,
  is_permanent_failure, is_chain_connection_error, Result, ok, err,
}
use flow_wallet_api.System.{SystemService}
use flow_wallet_api.Datastore.{parse_list_options}
use flow_wallet_api.Jobs.Types.{
  State, init, accepted, no_available_workers, error, complete, failed, other, Job, JsonResponse,
  Store, JobQueueStatus, StatusQuery, OnJob, is_complete, is_failed, to_json_response,
  send_job_status_job_type,
}

-- http.StatusOK, and the error text for any other status.
abbrev status_ok : ℕ → Bool
status_ok status = status == 200

abbrev unexpected_status : Text
unexpected_status = bytes "webhook endpoint responded with an unexpected status code: "

module _ {W : Type 0} (wp : WorkerPool W) where
  open wp use {
    store, capacity, max_job_error_count, accepted_grace_period, re_schedulable_grace_period,
    executors, notification_config, system_service, marshal, post, select_stop,
  }

  -- tryEnqueue
  unfoldable pub try_enqueue : Job → Bool → PoolState W → Sent × PoolState W
  try_enqueue j block st =
      let room = ltb (length st.queue) capacity in
      let pushed = record st { queue = st.queue ++ (j ∷ []) } in
      if room && not (st.stopped && select_stop st.world)
      then (sent, pushed)
      else if st.stopped
      then (not_sent, st)
      else if block
      then (waits, st)
      else (not_sent, st)

  -- systemHalted
  unfoldable pub system_halted : W → Result Bool × W
  system_halted w = elim system_service [ none ↦ (ok false, w) | some s ↦ s.is_halted w ]

  -- store.UpdateJob, on the pool's state.
  abbrev update_in : Job → PoolState W → Option GoError × Job × PoolState W
  update_in j st =
      let (e, j', w') = store.update_job j st.world in (e, j', record st { world = w' })

  -- The part of Schedule behind the test for a halted system.
  schedule_now : Job → PoolState W → Option GoError × Job × PoolState W
  schedule_now j st =
      let (outcome, st') = try_enqueue j false st in
      if is_sent outcome
      then (none, j, st')
      else update_in (record j { state = no_available_workers }) st'

  -- Schedule
  pub schedule : Job → PoolState W → Option GoError × Job × PoolState W
  schedule j st =
      let (r, w') = system_halted st.world in
      let st' = record st { world = w' } in
      elim r [
        | err e ↦ (some (wrap_after (bytes "error while getting system settings: ") e), j, st')
        | ok halted ↦ if halted then (none, j, st') else schedule_now j st'
      ]

  -- The job that CreateJob inserts, after its options.
  abbrev pub new_job : Text → Text → Text → Job
  new_job job_type transaction_id attributes = record {
    id = 0;
    job_type = job_type;
    state = init;
    error_message = [];
    errors = [];
    result = [];
    transaction_id = transaction_id;
    exec_count = 0;
    created_at = 0;
    updated_at = 0;
    should_send_notification = false;
    attributes = attributes;
  }

  -- CreateJob; the option WithAttributes is the argument `attributes`.
  unfoldable pub create_job : Text → Text → Text → W → Result Job × W
  create_job job_type transaction_id attributes w =
      let (e, j, w') = store.insert_job (new_job job_type transaction_id attributes) w in
      elim e [ none ↦ (ok j, w') | some x ↦ (err x, w') ]

  -- scheduleJobStatusNotification, once the new job is there.
  notify_with : Job → Job → PoolState W → Option GoError × PoolState W
  notify_with parent j st = elim (marshal (to_json_response parent)) [
    | err e ↦ (some e, st)
    | ok content ↦
        let (e, j', st') = update_in (record j { result = content }) st in
        let rest = schedule j' st' in elim e [ some x ↦ (some x, st') | none ↦ (rest.0, rest.2) ]
  ]

  -- scheduleJobStatusNotification
  pub schedule_job_status_notification : Job → PoolState W → Option GoError × PoolState W
  schedule_job_status_notification parent st =
      let (r, w') = create_job send_job_status_job_type [] [] st.world in
      let st' = record st { world = w' } in
      elim r [ err e ↦ (some e, st') | ok j ↦ notify_with parent j st' ]

  -- The fields that `process` sets after the executor has returned.
  unfoldable pub record_outcome : Option GoError → Job → Job
  record_outcome none j = record j { state = complete; error_message = [] }
  record_outcome (some e) j = record j {
    state =
        if ltb max_job_error_count j.exec_count || is_permanent_failure e then failed else error;
    error_message = error_text e;
    errors = j.errors ++ (error_text e ∷ []);
  }

  -- Whether `process` schedules a status notification for the job.
  abbrev pub wants_notification : Job → Bool
  wants_notification j =
      (is_failed j.state || is_complete j.state)
      && j.should_send_notification
      && should_send_job_status notification_config

  abbrev pub updating : GoError → GoError
  updating = wrap_after (bytes "error while updating database entry: ")

  -- The end of `process`: save the job, then notify. A failed notification is only logged.
  save_outcome : Job → PoolState W → Option GoError × PoolState W
  save_outcome j st =
      let (e, j', st') = update_in j st in
      elim e [
        | some x ↦ (some (updating x), st')
        | none ↦
            if wants_notification j'
            then (none, (schedule_job_status_notification j' st').1)
            else (none, st')
      ]

  -- `process` after the executor has returned `e` and left the job as `j`.
  after_executor : Option GoError → Job → PoolState W → Option GoError × PoolState W
  after_executor none j st = save_outcome (record_outcome none j) st
  after_executor (some e) j st =
      if is_chain_connection_error e
      then (some e, st)
      else save_outcome (record_outcome (some e) j) st

  -- `process` of a job that has been accepted.
  process_accepted : Job → PoolState W → Option GoError × PoolState W
  process_accepted j st = elim (executors j.job_type) [
    | none ↦
        let (e, j', st') = update_in (record j { state = no_available_workers }) st in
        elim e [ none ↦ (none, st') | some x ↦ (some (updating x), st') ]
    | some executor ↦
        let (e, j', w') = executor j st.world in after_executor e j' (record st { world = w' })
  ]

  -- process
  pub process : Job → PoolState W → Option GoError × PoolState W
  process j st =
      let (e, j', w') = store.accept_job accepted_grace_period j st.world in
      let st' = record st { world = w' } in
      elim e [ some x ↦ (none, st') | none ↦ process_accepted j' st' ]

  -- What a worker does with the error of `process`.
  handle_critical : Option GoError → PoolState W → PoolState W
  handle_critical none st = st
  handle_critical (some e) st =
      if is_chain_connection_error e
      then elim system_service [ none ↦ st | some s ↦ record st { world = (s.pause st.world).1 } ]
      else st

  -- One turn of a worker's loop in startWorkers: the oldest job leaves the channel and is processed.
  pub worker_turn : PoolState W → PoolState W
  worker_turn st = elim st.queue [
    | [] ↦ st
    | j ∷ rest ↦ let (e, st') = process j (record st { queue = rest }) in handle_critical e st'
  ]

  -- The scheduler's loop over the jobs that it has fetched; it stops where a send has to wait, and
  -- returns the jobs that are still to be sent.
  pub enqueue_all : List Job → PoolState W → List Job × PoolState W
  enqueue_all [] st = ([], st)
  enqueue_all (j ∷ js) st =
      let (outcome, st') = try_enqueue j true st in
      let rest = enqueue_all js st' in if is_waits outcome then (j ∷ js, st') else rest

  -- A round of the scheduler that is not halted: fetch the schedulable jobs and send them.
  poll_jobs : ℕ → PoolState W → ℕ × List Job × PoolState W
  poll_jobs rest st =
      let o = parse_list_options (pos 0) (pos 0) in
      let (r, w') =
        store.schedulable_jobs accepted_grace_period re_schedulable_grace_period o st.world in
      elim r [
        | err e ↦ (rest, [], record st { world = w' })
        | ok js ↦
            let (left, st') = enqueue_all js (record st { world = w' }) in
            (wp.db_job_poll_interval - wp.elapsed st.world st'.world, left, st')
      ]

  -- One round of startDBJobScheduler after its rest: the next rest, the jobs not yet sent, the state.
  pub scheduler_round : ℕ → PoolState W → ℕ × List Job × PoolState W
  scheduler_round rest st =
      let (r, w') = system_halted st.world in
      let st' = record st { world = w' } in
      elim r [
        | err e ↦ (wp.db_job_poll_interval, [], st')
        | ok halted ↦ if halted then (wp.db_job_poll_interval, [], st') else poll_jobs rest st'
      ]

  -- SendJobStatusWebhook
  send_job_status_webhook : Text → W → Option GoError × W
  send_job_status_webhook content w = elim notification_config.job_status_webhook_url [
    | none ↦ (none, w)
    | some url ↦
        let (r, w') = post url content w in
        elim r [
          | err e ↦ (some (wrap_after (bytes "error while sending webhook request: ") e), w')
          | ok status ↦
              if status_ok status
              then (none, w')
              else (some (plain (unexpected_status ++ wp.itoa status)), w')
        ]
  ]

  -- executeSendJobStatus, and SendJobStatus that it calls
  unfoldable pub execute_send_job_status : OnJob W
  unfolding send_job_status_webhook
  execute_send_job_status j w =
      if text_eq j.job_type send_job_status_job_type
      then (let j' = record j { should_send_notification = false } in
          let (e, w') = send_job_status_webhook j.result w in (e, j', w'))
      else (some invalid_job_type, j, w)

-- PermanentFailure
unfoldable pub permanent : GoError → GoError
permanent e = wrap_before permanent_failure (bytes ": " ++ error_text e)

-- The switch in Status; another state changes nothing.
abbrev set_count : JobQueueStatus → State → ℕ → JobQueueStatus
set_count s init n = record s { jobs_init = n }
set_count s no_available_workers n = record s { jobs_not_accepted = n }
set_count s accepted n = record s { jobs_accepted = n }
set_count s error n = record s { jobs_errored = n }
set_count s failed n = record s { jobs_failed = n }
set_count s complete n = record s { jobs_completed = n }
set_count s (other t) n = s

-- The loop in Status.
unfoldable pub set_counts : JobQueueStatus → List StatusQuery → JobQueueStatus
set_counts s [] = s
set_counts s (q ∷ qs) = set_counts (set_count s q.state q.count) qs

abbrev pub no_jobs : JobQueueStatus
no_jobs = record {
  jobs_init = 0;
  jobs_not_accepted = 0;
  jobs_accepted = 0;
  jobs_errored = 0;
  jobs_failed = 0;
  jobs_completed = 0;
}

-- Status
unfoldable pub status : {W : Type 0} → WorkerPool W → W → Result WorkerPoolStatus × W
unfolding set_counts
status wp w =
    let (r, w') = wp.store.status w in
    elim r [
      | err e ↦ (err e, w')
      | ok query ↦ (
        ok (record {
          job_queue_status = set_counts no_jobs query;
          pool_capacity = wp.capacity;
          pool_worker_count = wp.worker_count;
        }),
        w',
      )
    ]

-- RegisterExecutor
unfoldable pub register_executor : {W : Type 0} → Text → OnJob W → WorkerPool W → WorkerPool W
register_executor job_type f wp = record wp {
  executors = λ k. if text_eq k job_type then some f else wp.executors k;
}

-- The last step of NewWorkerPool, on a pool that its arguments and options have filled in.
unfoldable pub new_worker_pool : {W : Type 0} → WorkerPool W → WorkerPool W
unfolding register_executor execute_send_job_status
new_worker_pool wp = register_executor send_job_status_job_type (execute_send_job_status wp) wp
