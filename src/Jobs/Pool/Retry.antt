-- ===== src/Jobs/Pool/Retry.antt =====
-- How often a failing job is tried (MaxJobErrorCount in jobs/workerpool.go).
use flow_wallet_api.Prelude.{
  ℕ, zero, suc, ◌≤◌, ◌≡◌, sym, ap, ◌∙◌, false, ◌||◌, none, some, arith, ltb, if◌then◌else◌,
  some_inj,
}
use mathlib.Core.Path.{subst}
use native.Mathlib.Numerals.{add-one}
use flow_wallet_api.Errors.{GoError, is_chain_connection_error, is_permanent_failure}
use flow_wallet_api.Jobs.Types.{error, failed, Job, OnJob, is_complete, is_failed}
use flow_wallet_api.Jobs.Store.{as_row}
use flow_wallet_api.Jobs.Pool.{WorkerPool, PoolState, record_outcome, process}
use flow_wallet_api.Jobs.Pool.Keeps.{PoolContract}
use flow_wallet_api.Jobs.Pool.Outcome.{
  Executes, accepted_job, executed, saved_outcome, process_stores_outcome,
}

module _ {W : Type 0} (wp : WorkerPool W) (c : PoolContract wp) where
  open c use {store_contract}
  open store_contract use {rows}
  open wp use {store, accepted_grace_period, max_job_error_count}

  -- A worker processes a job with this id, and the executor ends in an ordinary error: one that is no
  -- connection error and no permanent failure. The executor leaves the id and the count of the job
  -- alone, the outcome can be saved, and until `next` nobody else writes the row.
  pub record FailedRun (id : ℕ) (st next : PoolState W) : Type 0 where
    pub job : Job
    pub executor : OnJob W
    pub error_value : GoError
    pub named : job.id ≡ id
    pub runs : Executes wp c executor job st
    pub fails : (executed wp c executor job st).0 ≡ some error_value
    pub connected : is_chain_connection_error error_value ≡ false
    pub ordinary : is_permanent_failure error_value ≡ false
    pub same_id : (executed wp c executor job st).1.id ≡ (accepted_job wp c job st).id
    pub same_count :
        (executed wp c executor job st).1.exec_count ≡ (accepted_job wp c job st).exec_count
    pub saved : (saved_outcome wp c executor job st).0 ≡ none
    pub unwritten : rows next.world id ≡ rows (process wp job st).1.world id

  -- `n` failed runs of one job, one after the other.
  pub data FailedRuns (id : ℕ) (st : PoolState W) : ℕ → PoolState W → Type 0 where
    no_run : FailedRuns id st 0 st
    one_more :
        {n : ℕ} {mid next : PoolState W}
        → FailedRuns id st n mid
        → FailedRun id mid next
        → FailedRuns id st (suc n) next

  -- What a failed run makes of the row: the count goes up by one, and the state follows from it.
  abbrev pub Tried : ℕ → PoolState W → ℕ → Type 0
  Tried id st n =
      (j : Job) × (rows st.world id ≡ some j)
      × (j.exec_count ≡ n)
      × (j.state ≡ (if ltb max_job_error_count n then failed else error))

  record_failure :
      (e : GoError) (j : Job) (n : ℕ)
      → j.exec_count ≡ n
      → is_permanent_failure e ≡ false
      → ((record_outcome wp (some e) j).exec_count ≡ n)
        × ((record_outcome wp (some e) j).state
            ≡ (if ltb max_job_error_count n then failed else error))
  unfolding record_outcome
  record_failure e j n count ordinary = (count, rw (count, ordinary) (ground arith))

  not_given_up :
      (n : ℕ)
      → (is_complete (if ltb max_job_error_count n then failed else error)
          || is_failed (if ltb max_job_error_count n then failed else error))
        ≡ false
      → n ≤ max_job_error_count
  not_given_up n h = ground arith

  FailedRun-step :
      (id : ℕ) {st next : PoolState W}
      → FailedRun id st next
      → (stored : Job) × (rows st.world id ≡ some stored)
        × ((is_complete stored.state || is_failed stored.state) ≡ false)
        × Tried id next (suc stored.exec_count)
  FailedRun-step id {st} {next} r =
      let (stored, found, live, job, after) =
        store_contract.is_store.accept_writes accepted_grace_period r.job st.world r.runs.accepts in
      let ran = (executed wp c r.executor r.job st).1 in
      let id_kept : ran.id ≡ id = r.same_id ∙ ap (λ j. j.id) job ∙ r.named in
      let counted : ran.exec_count ≡ suc stored.exec_count =
        r.same_count ∙ ap (λ j. j.exec_count) job ∙ add-one stored.exec_count in
      let (count, state) =
        record_failure r.error_value ran (suc stored.exec_count) counted r.ordinary in
      let final =
        store_contract.is_store.update_writes
          (record_outcome wp (executed wp c r.executor r.job st).0 ran)
          (executed wp c r.executor r.job st).2 r.saved in
      let (quiet, kept) =
        process_stores_outcome wp c r.executor r.job st r.runs (rw r.fails r.connected) r.saved in
      (
        stored,
        ap (rows st.world) (sym r.named) ∙ found,
        live,
        (
          as_row (saved_outcome wp c r.executor r.job st).1,
          r.unwritten ∙ ap (rows (process wp r.job st).1.world) (sym id_kept) ∙ kept,
          ap (λ j. j.exec_count) final.0
              ∙ ap (λ o. (record_outcome wp o ran).exec_count) r.fails
              ∙ count,
          ap (λ j. j.state) final.0 ∙ ap (λ o. (record_outcome wp o ran).state) r.fails ∙ state,
        ),
      )

  -- A job that has been tried `n` times, and was not given up before, is tried once more.
  Tried-step :
      (id n : ℕ) {st next : PoolState W}
      → Tried id st n
      → FailedRun id st next
      → (n ≤ max_job_error_count) × Tried id next (suc n)
  Tried-step id n {st} {next} (j, row, count, state) r =
      let (stored, found, live, tried) = FailedRun-step id r in
      let same : stored ≡ j = some_inj (sym found ∙ row) in
      let counted : stored.exec_count ≡ n = ap (λ k. k.exec_count) same ∙ count in
      (
        not_given_up n (
            subst (λ s. (is_complete s || is_failed s) ≡ false) (ap (λ k. k.state) same ∙ state)
              live),
        subst (Tried id next) (ap suc counted) tried,
      )

  -- A new job whose executions all end in an ordinary error (no connection error and no permanent
  -- failure) is counted once per execution, is in state error after each of the first
  -- max_job_error_count executions and failed after the next one, and cannot be executed again, if
  -- the store keeps its contract, the executor leaves the job's id and count alone, each outcome
  -- can be saved, and nobody else writes the row.
  pub FailedRuns-bounded :
      (id n : ℕ) (st next : PoolState W) (new : Job)
      → rows st.world id ≡ some new
      → new.exec_count ≡ 0
      → FailedRuns id st (suc n) next
      → (n ≤ max_job_error_count) × Tried id next (suc n)
  FailedRuns-bounded id zero st next new row fresh (one_more no_run r) =
      let (stored, found, live, tried) = FailedRun-step id r in
      let counted : stored.exec_count ≡ 0 =
        ap (λ k. k.exec_count) (some_inj (sym found ∙ row)) ∙ fresh in
      (omega arith, subst (Tried id next) (ap suc counted) tried)
  FailedRuns-bounded id (suc n) st next new row fresh (one_more before r) =
      Tried-step id (suc n) (FailedRuns-bounded id n st _ new row fresh before).1 r
