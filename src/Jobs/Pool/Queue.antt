-- ===== src/Jobs/Pool/Queue.antt =====
-- The channel of waiting jobs (jobChan in jobs/workerpool.go): who adds to it, who takes from it.
use flow_wallet_api.Prelude.{
  ◌<◌, inl, inr, Bool, true, false, Option, none, some, List, [], ◌∷◌, ◌++◌, arith, Option-cases,
  length,
}
use flow_wallet_api.Errors.{GoError, Result-cases}
use flow_wallet_api.Jobs.Types.{Job, to_json_response, send_job_status_job_type}
use flow_wallet_api.Jobs.Pool.{
  WorkerPool, PoolState, try_enqueue, system_halted, update_in, schedule_now, schedule, create_job,
  notify_with, schedule_job_status_notification, record_outcome, save_outcome, after_executor,
  process_accepted, process, enqueue_all,
}

-- A property of the queue that survives a job joining at the back while there is room.
module _ {W : Type 0} (wp : WorkerPool W) (P : List Job → Type 0)
    (push : (j : Job) (q : List Job) → P q → length q < wp.capacity → P (q ++ (j ∷ []))) where
  try_enqueue_keeps :
      (j : Job) (block : Bool) (st : PoolState W)
      → P st.queue
      → P (try_enqueue wp j block st).1.queue
  unfolding try_enqueue
  try_enqueue_keeps j block st h = ground (arith, push j st.queue h)

  schedule_now_keeps : (j : Job) (st : PoolState W) → P st.queue → P (schedule_now wp j st).2.queue
  unfolding schedule_now
  schedule_now_keeps j st h = ground (arith, try_enqueue_keeps j false st h)

  pub schedule_keeps : (j : Job) (st : PoolState W) → P st.queue → P (schedule wp j st).2.queue
  unfolding schedule
  schedule_keeps j st h = elim (Result-cases (system_halted wp st.world).0) [
    | inr (x, e) ↦ rw (e, schedule) h
    | inl (halted, e) ↦
        ground (arith, schedule_now_keeps j (record st { world = (system_halted wp st.world).1 }) h)
  ]

  notify_with_keeps :
      (parent j : Job) (st : PoolState W) → P st.queue → P (notify_with wp parent j st).1.queue
  unfolding notify_with
  notify_with_keeps parent j st h = elim (Result-cases (wp.marshal (to_json_response parent))) [
    | inr (x, e) ↦ rw (e, notify_with) h
    | inl (content, e) ↦
        let after = update_in wp (record j { result = content }) st in
        ground (arith, schedule_keeps after.1 after.2 h)
  ]

  notification_keeps :
      (parent : Job) (st : PoolState W)
      → P st.queue
      → P (schedule_job_status_notification wp parent st).1.queue
  unfolding schedule_job_status_notification
  notification_keeps parent st h =
      let created = create_job wp send_job_status_job_type [] [] st.world in
      elim (Result-cases created.0) [
        | inr (x, e) ↦ rw (e, schedule_job_status_notification) h
        | inl (j, e) ↦
            rw (e, schedule_job_status_notification)
              (notify_with_keeps parent j (record st { world = created.1 }) h)
      ]

  save_outcome_keeps : (j : Job) (st : PoolState W) → P st.queue → P (save_outcome wp j st).1.queue
  unfolding save_outcome
  save_outcome_keeps j st h =
      let after = update_in wp j st in ground (arith, notification_keeps after.1 after.2 h)

  after_executor_keeps :
      (e : Option GoError) (j : Job) (st : PoolState W)
      → P st.queue
      → P (after_executor wp e j st).1.queue
  unfolding after_executor
  after_executor_keeps none j st h = save_outcome_keeps (record_outcome wp none j) st h
  after_executor_keeps (some e) j st h =
      ground (arith, save_outcome_keeps (record_outcome wp (some e) j) st h)

  process_accepted_keeps :
      (j : Job) (st : PoolState W) → P st.queue → P (process_accepted wp j st).1.queue
  unfolding process_accepted
  process_accepted_keeps j st h = elim (Option-cases (wp.executors j.job_type)) [
    | inl e ↦ ground arith
    | inr (f, e) ↦
        rw (e, process_accepted)
          (after_executor_keeps (f j st.world).0 (f j st.world).1
            (record st { world = (f j st.world).2 }) h)
  ]

  pub process_keeps : (j : Job) (st : PoolState W) → P st.queue → P (process wp j st).1.queue
  unfolding process
  process_keeps j st h =
      let accepted = wp.store.accept_job wp.accepted_grace_period j st.world in
      ground (arith, process_accepted_keeps accepted.1 (record st { world = accepted.2 }) h)

  pub enqueue_all_keeps :
      (js : List Job) (st : PoolState W) → P st.queue → P (enqueue_all wp js st).1.queue
  unfolding enqueue_all
  enqueue_all_keeps [] st h = h
  enqueue_all_keeps (j ∷ js) st h =
      let next = try_enqueue_keeps j true st h in
      ground (arith, next, enqueue_all_keeps js (try_enqueue wp j true st).1 next)
