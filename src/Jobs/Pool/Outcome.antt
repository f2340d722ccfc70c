-- ===== src/Jobs/Pool/Outcome.antt =====
-- What `process` (jobs/workerpool.go) leaves in the store, for each way that an execution can end.
use flow_wallet_api.Prelude.{
  ◌≡◌, refl, sym, ap, ◌∙◌, inl, inr, Bool, true, false, Option, none, some, Bool-cases,
}
use flow_wallet_api.Errors.{GoError, is_chain_connection_error}
use flow_wallet_api.Jobs.Types.{Job, OnJob}
use flow_wallet_api.Jobs.Store.{as_row}
use flow_wallet_api.Jobs.Store.Accept.{write_self}
use flow_wallet_api.Jobs.Pool.{
  WorkerPool, PoolState, update_in, wants_notification, record_outcome, save_outcome,
  after_executor, process_accepted, process,
}
use flow_wallet_api.Jobs.Pool.Keeps.{PoolContract, update_in_id, notification_keeps}

-- The executor reported an error of the connection to the chain.
abbrev pub lost_connection : Option GoError → Bool
lost_connection none = false
lost_connection (some e) = is_chain_connection_error e

module _ {W : Type 0} (wp : WorkerPool W) (c : PoolContract wp) where
  open c use {store_contract}
  open store_contract use {rows}
  open wp use {store, accepted_grace_period, executors}

  save_outcome_stores :
      (j : Job) (st : PoolState W)
      → (update_in wp j st).0 ≡ none
      → ((save_outcome wp j st).0 ≡ none)
        × (rows (save_outcome wp j st).1.world j.id ≡ some (as_row (update_in wp j st).1))
  unfolding save_outcome
  save_outcome_stores j st h =
      let (same, after) = store_contract.is_store.update_writes j st.world h in
      let written : rows (update_in wp j st).2.world j.id ≡ some (as_row (update_in wp j st).1) =
        ap (λ r. r j.id) after
        ∙ write_self (rows st.world) (update_in wp j st).1 j.id (sym (update_in_id wp c j st h)) in
      elim (Bool-cases (wants_notification wp (update_in wp j st).1)) [
        | inl yes_notify ↦
            rw (h, yes_notify, save_outcome)
              (
                refl,
                notification_keeps wp c (update_in wp j st).1 (update_in wp j st).2 j.id written,
              )
        | inr no_notify ↦ rw (h, no_notify, save_outcome) (refl, written)
      ]

  after_executor_stores :
      (e : Option GoError) (j : Job) (st : PoolState W)
      → lost_connection e ≡ false
      → (update_in wp (record_outcome wp e j) st).0 ≡ none
      → ((after_executor wp e j st).0 ≡ none)
        × (rows (after_executor wp e j st).1.world (record_outcome wp e j).id
            ≡ some (as_row (update_in wp (record_outcome wp e j) st).1))
  unfolding after_executor
  after_executor_stores none j st h u = save_outcome_stores (record_outcome wp none j) st u
  after_executor_stores (some e) j st h u =
      rw h (save_outcome_stores (record_outcome wp (some e) j) st u)

  -- The job and the world when the executor starts, and what it returns.
  abbrev pub accepted_job : Job → PoolState W → Job
  accepted_job j st = (store.accept_job accepted_grace_period j st.world).1

  abbrev pub executed : OnJob W → Job → PoolState W → Option GoError × Job × W
  executed f j st = f (accepted_job j st) (store.accept_job accepted_grace_period j st.world).2

  abbrev pub executed_state : OnJob W → Job → PoolState W → PoolState W
  executed_state f j st = record st { world = (executed f j st).2 }

  -- The job `j` is accepted, and `f` is the executor of its type.
  pub record Executes (f : OnJob W) (j : Job) (st : PoolState W) : Type 0 where
    pub accepts : (store.accept_job accepted_grace_period j st.world).0 ≡ none
    pub found : executors (accepted_job j st).job_type ≡ some f

  process-Executes :
      (f : OnJob W) (j : Job) (st : PoolState W)
      → Executes f j st
      → process wp j st
        ≡ after_executor wp (executed f j st).0 (executed f j st).1 (executed_state f j st)
  unfolding process process_accepted
  process-Executes f j st x = rw (x.accepts, x.found, process, process_accepted) refl

  record_outcome_id : (e : Option GoError) (j : Job) → (record_outcome wp e j).id ≡ j.id
  unfolding record_outcome
  record_outcome_id none j = refl
  record_outcome_id (some e) j = refl

  -- The job that `process` saves after an execution, as UpdateJob returns it.
  abbrev pub saved_outcome : OnJob W → Job → PoolState W → Option GoError × Job × PoolState W
  saved_outcome f j st =
      update_in wp (record_outcome wp (executed f j st).0 (executed f j st).1)
        (executed_state f j st)

  -- If the job is accepted, its executor returns no connection error, and the job can be saved,
  -- process returns no error and the job's row holds the saved outcome, also after a status
  -- notification was scheduled; the store is taken to keep its contract.
  pub process_stores_outcome :
      (f : OnJob W) (j : Job) (st : PoolState W)
      → Executes f j st
      → lost_connection (executed f j st).0 ≡ false
      → (saved_outcome f j st).0 ≡ none
      → ((process wp j st).0 ≡ none)
        × (rows (process wp j st).1.world (executed f j st).1.id
            ≡ some (as_row (saved_outcome f j st).1))
  process_stores_outcome f j st x h u =
      let (quiet, stored) =
        after_executor_stores (executed f j st).0 (executed f j st).1 (executed_state f j st) h u in
      rw (process-Executes f j st x) (
        quiet,
        ap
              (rows
                (after_executor wp (executed f j st).0 (executed f j st).1
                  (executed_state f j st)).1.world)
              (sym (record_outcome_id (executed f j st).0 (executed f j st).1))
            ∙ stored,
      )

  -- If an accepted job's executor returns a connection error, process returns that error and
  -- changes nothing after the executor.
  process_connection_error :
      (f : OnJob W) (j : Job) (st : PoolState W) (e : GoError)
      → Executes f j st
      → (executed f j st).0 ≡ some e
      → is_chain_connection_error e ≡ true
      → process wp j st ≡ (some e, executed_state f j st)
  unfolding after_executor
  process_connection_error f j st e x failed_with lost =
      process-Executes f j st x ∙ rw (failed_with, after_executor) (rw lost refl)
