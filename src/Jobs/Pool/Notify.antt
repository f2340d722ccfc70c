-- ===== src/Jobs/Pool/Notify.antt =====
-- Status notifications (executeSendJobStatus and process in jobs/workerpool.go) do not breed: the job
-- that sends one asks for none itself.
use flow_wallet_api.Prelude.{
  ◌≡◌, refl, ap, ◌∙◌, inl, inr, true, false, Option, none, some, arith, Text, text_eq, text_eq_refl,
  Option-cases,
}
use flow_wallet_api.Errors.{GoError}
use flow_wallet_api.Jobs.Types.{Job, send_job_status_job_type}
use flow_wallet_api.Jobs.Store.Contract.{StoreContract}
use flow_wallet_api.Jobs.Pool.{
  WorkerPool, PoolState, update_in, record_outcome, save_outcome, after_executor, process_accepted,
  process, execute_send_job_status, new_worker_pool,
}

module _ {W : Type 0} (wp : WorkerPool W) (c : StoreContract wp.store) where
  save_outcome_quiet :
      (j : Job) (st : PoolState W)
      → j.should_send_notification ≡ false
      → (save_outcome wp j st).1.queue ≡ st.queue
  unfolding save_outcome
  save_outcome_quiet j st h = elim (Option-cases (update_in wp j st).0) [
    | inr (x, e) ↦ rw (e, save_outcome) refl
    | inl e ↦
        let quiet : (update_in wp j st).1.should_send_notification ≡ false =
          ap (λ k. k.should_send_notification) (c.is_store.update_writes j st.world e).0 ∙ h in
        ground arith
  ]

  after_executor_quiet :
      (e : Option GoError) (j : Job) (st : PoolState W)
      → j.should_send_notification ≡ false
      → (after_executor wp e j st).1.queue ≡ st.queue
  unfolding after_executor record_outcome
  after_executor_quiet none j st h = save_outcome_quiet (record_outcome wp none j) st h
  after_executor_quiet (some e) j st h =
      ground (arith, save_outcome_quiet (record_outcome wp (some e) j) st h)

execute_send_job_status_quiet :
    {W : Type 0} (wp : WorkerPool W) (j : Job) (w : W)
    → text_eq j.job_type send_job_status_job_type ≡ true
    → (execute_send_job_status wp j w).1.should_send_notification ≡ false
unfolding execute_send_job_status
execute_send_job_status_quiet wp j w h = rw h refl

registered :
    {W : Type 0} (wp : WorkerPool W) (t : Text)
    → text_eq t send_job_status_job_type ≡ true
    → (new_worker_pool wp).executors t ≡ some (execute_send_job_status wp)
unfolding new_worker_pool
registered wp t h = rw h refl

process_accepted_quiet :
    {W : Type 0} (wp : WorkerPool W) (c : StoreContract (new_worker_pool wp).store) (j : Job)
    (st : PoolState W)
    → text_eq j.job_type send_job_status_job_type ≡ true
    → (process_accepted (new_worker_pool wp) j st).1.queue ≡ st.queue
unfolding process_accepted
process_accepted_quiet wp c j st h =
    let ran = execute_send_job_status wp j st.world in
    rw (registered wp j.job_type h, process_accepted)
      (after_executor_quiet (new_worker_pool wp) c ran.0 ran.1 (record st { world = ran.2 })
        (execute_send_job_status_quiet wp j st.world h))

-- Processing a status notification adds no job to the channel, in a pool that NewWorkerPool has
-- made over a store that keeps its contract.
pub notification_final :
    {W : Type 0} (wp : WorkerPool W) (c : StoreContract (new_worker_pool wp).store) (j : Job)
    (st : PoolState W)
    → j.job_type ≡ send_job_status_job_type
    → (process (new_worker_pool wp) j st).1.queue ≡ st.queue
unfolding process
notification_final wp c j st h =
    let pool = new_worker_pool wp in
    let accepted = pool.store.accept_job pool.accepted_grace_period j st.world in
    elim (Option-cases accepted.0) [
      | inr (x, e) ↦ rw (e, process) refl
      | inl e ↦
          let (stored, found, live, job, after) =
            c.is_store.accept_writes pool.accepted_grace_period j st.world e in
          let kind : accepted.1.job_type ≡ send_job_status_job_type =
            ap (λ k. k.job_type) job ∙ h in
          rw (e, process)
            (process_accepted_quiet wp c accepted.1 (record st { world = accepted.2 })
              (rw kind (text_eq_refl send_job_status_job_type)))
    ]
