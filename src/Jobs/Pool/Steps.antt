-- ===== src/Jobs/Pool/Steps.antt =====
-- The pool as a system of goroutines (jobs/workerpool.go): the steps of workers, scheduler and
-- callers in any order, and what holds of the channel after any of them.
use mathlib.Core.List.{append_assoc, append-nil}
use flow_wallet_api.Prelude.{
  ℕ, ◌≤◌, ◌<◌, ◌≡◌, refl, sym, ap, ◌∙◌, ◌⊎◌, inl, inr, true, false, Option, none, some, List, [],
  ◌∷◌, ◌++◌, arith, Bool-cases, length, length-append, pos,
}
use flow_wallet_api.Errors.{GoError, ok, Result-cases}
use flow_wallet_api.Datastore.{parse_list_options}
use flow_wallet_api.Jobs.Types.{no_available_workers, Job}
use flow_wallet_api.Jobs.Store.{as_row}
use flow_wallet_api.Jobs.Store.Accept.{write_self}
use flow_wallet_api.Jobs.Pool.{
  WorkerPool, PoolState, is_sent, try_enqueue, system_halted, update_in, schedule_now, schedule,
  process, handle_critical, worker_turn, enqueue_all, poll_jobs, scheduler_round,
}
use flow_wallet_api.Jobs.Pool.Keeps.{PoolContract, update_in_id}
use flow_wallet_api.Jobs.Pool.Queue.{schedule_keeps, process_keeps, enqueue_all_keeps}

module _ {W : Type 0} (wp : WorkerPool W) where
  -- A caller schedules a job, a worker takes its turn, the scheduler makes a round or goes on with the
  -- jobs that had to wait, Stop closes stopChan, and the world changes on its own.
  pub data PoolStep : PoolState W → PoolState W → Type 0 where
    schedules : (j : Job) (st : PoolState W) → PoolStep st (schedule wp j st).2
    works : (st : PoolState W) → PoolStep st (worker_turn wp st)
    polls : (rest : ℕ) (st : PoolState W) → PoolStep st (scheduler_round wp rest st).2
    sends : (js : List Job) (st : PoolState W) → PoolStep st (enqueue_all wp js st).1
    stops : (st : PoolState W) → PoolStep st (record st { stopped = true })
    moves_on : (w : W) (st : PoolState W) → PoolStep st (record st { world = w })

  pub data PoolSteps (st : PoolState W) : PoolState W → Type 0 where
    start : PoolSteps st st
    then_step : {mid next : PoolState W} → PoolSteps st mid → PoolStep mid next → PoolSteps st next

  handle_critical_queue :
      (e : Option GoError) (st : PoolState W) → (handle_critical wp e st).queue ≡ st.queue
  unfolding handle_critical
  handle_critical_queue none st = refl
  handle_critical_queue (some e) st = ground arith

  module _ (P : List Job → Type 0)
      (push : (j : Job) (q : List Job) → P q → length q < wp.capacity → P (q ++ (j ∷ []))) where
    poll_jobs_keeps : (rest : ℕ) (st : PoolState W) → P st.queue → P (poll_jobs wp rest st).2.queue
    unfolding poll_jobs
    poll_jobs_keeps rest st h =
        let found =
          wp.store.schedulable_jobs wp.accepted_grace_period wp.re_schedulable_grace_period
            (parse_list_options (pos 0) (pos 0)) st.world in
        elim (Result-cases found.0) [
          | inr (x, e) ↦ rw (e, poll_jobs) h
          | inl (js, e) ↦
              rw (e, poll_jobs) (enqueue_all_keeps wp P push js (record st { world = found.1 }) h)
        ]

    scheduler_round_keeps :
        (rest : ℕ) (st : PoolState W) → P st.queue → P (scheduler_round wp rest st).2.queue
    unfolding scheduler_round
    scheduler_round_keeps rest st h = elim (Result-cases (system_halted wp st.world).0) [
      | inr (x, e) ↦ rw (e, scheduler_round) h
      | inl (halted, e) ↦
          ground
            (arith, poll_jobs_keeps rest (record st { world = (system_halted wp st.world).1 }) h)
    ]

    worker_turn_keeps :
        (j : Job) (js : List Job) (st : PoolState W)
        → st.queue ≡ j ∷ js
        → P js
        → P (worker_turn wp st).queue
    unfolding worker_turn
    worker_turn_keeps j js st e h =
        let taken : PoolState W = record st { queue = js } in
        rw (e, worker_turn)
          (rw (handle_critical_queue (process wp j taken).0 (process wp j taken).1)
            (process_keeps wp P push j taken h))

  below_capacity :
      (j : Job) (q : List Job)
      → length q ≤ wp.capacity
      → length q < wp.capacity
      → length (q ++ (j ∷ [])) ≤ wp.capacity
  below_capacity j q h room = omega (arith, length-append q (j ∷ []))

  worker_turn_bounded :
      (st : PoolState W) (q : List Job)
      → st.queue ≡ q
      → length q ≤ wp.capacity
      → length (worker_turn wp st).queue ≤ wp.capacity
  unfolding worker_turn
  worker_turn_bounded st [] e h = rw (e, worker_turn) (rw e h)
  worker_turn_bounded st (j ∷ js) e h =
      worker_turn_keeps (λ q. length q ≤ wp.capacity) below_capacity j js st e (omega arith)

  PoolStep-bounded :
      {st next : PoolState W}
      → PoolStep st next
      → length st.queue ≤ wp.capacity
      → length next.queue ≤ wp.capacity
  PoolStep-bounded (schedules j st) h =
      schedule_keeps wp (λ q. length q ≤ wp.capacity) below_capacity j st h
  PoolStep-bounded (works st) h = worker_turn_bounded st st.queue refl h
  PoolStep-bounded (polls rest st) h =
      scheduler_round_keeps (λ q. length q ≤ wp.capacity) below_capacity rest st h
  PoolStep-bounded (sends js st) h =
      enqueue_all_keeps wp (λ q. length q ≤ wp.capacity) below_capacity js st h
  PoolStep-bounded (stops st) h = h
  PoolStep-bounded (moves_on w st) h = h

  -- In any interleaving of workers, scheduler, callers and Stop the channel holds at most as many
  -- jobs as its capacity, if it did at the start.
  queue_bounded :
      {st next : PoolState W}
      → PoolSteps st next
      → length st.queue ≤ wp.capacity
      → length next.queue ≤ wp.capacity
  queue_bounded start h = h
  queue_bounded (then_step before step) h = PoolStep-bounded step (queue_bounded before h)

  -- A worker's turn takes the first job out of the channel, and leaves the others in their order in
  -- front of any new ones.
  worker_turn_fifo :
      (st : PoolState W) (j : Job) (js : List Job)
      → st.queue ≡ j ∷ js
      → (added : List Job) × ((worker_turn wp st).queue ≡ js ++ added)
  worker_turn_fifo st j js e =
      worker_turn_keeps (λ q. (added : List Job) × (q ≡ js ++ added))
        (λ k q h room.
          (h.0 ++ (k ∷ []), ap (λ r. r ++ (k ∷ [])) h.1 ∙ append_assoc js h.0 (k ∷ [])))
        j js st e ([], sym (append-nil js))

  try_enqueue_sent :
      (j : Job) (st : PoolState W)
      → is_sent (try_enqueue wp j false st).0 ≡ true
      → (try_enqueue wp j false st).1.queue ≡ st.queue ++ (j ∷ [])
  unfolding try_enqueue
  try_enqueue_sent j st h = ground arith

  schedule_now_not_lost :
      (c : PoolContract wp) (j : Job) (st : PoolState W)
      → (schedule_now wp j st).0 ≡ none
      → ((schedule_now wp j st).2.queue ≡ st.queue ++ (j ∷ []))
        ⊎ (((schedule_now wp j st).1.state ≡ no_available_workers)
            × (c.store_contract.rows (schedule_now wp j st).2.world j.id
                ≡ some (as_row (schedule_now wp j st).1)))
  unfolding schedule_now
  schedule_now_not_lost c j st h = elim (Bool-cases (is_sent (try_enqueue wp j false st).0)) [
    | inl full ↦ rw (full, schedule_now) (inl (try_enqueue_sent j st full))
    | inr none_free ↦
        let deferred : Job = record j { state = no_available_workers } in
        let st' = (try_enqueue wp j false st).1 in
        let saved : (update_in wp deferred st').0 ≡ none = ground arith in
        let (same, after) = c.store_contract.is_store.update_writes deferred st'.world saved in
        rw (none_free, schedule_now)
          (inr (
            ap (λ k. k.state) same,
            ap (λ r. r j.id) after
                ∙ write_self (c.store_contract.rows st'.world) (update_in wp deferred st').1 j.id
                    (sym (update_in_id wp c deferred st' saved)),
          ))
  ]

  -- When Schedule returns without an error and the system is not halted, the job is at the back of
  -- the channel, or its row says NO_AVAILABLE_WORKERS, if the store keeps its contract.
  pub schedule_not_lost :
      (c : PoolContract wp) (j : Job) (st : PoolState W)
      → (system_halted wp st.world).0 ≡ ok false
      → (schedule wp j st).0 ≡ none
      → ((schedule wp j st).2.queue ≡ st.queue ++ (j ∷ []))
        ⊎ (((schedule wp j st).1.state ≡ no_available_workers)
            × (c.store_contract.rows (schedule wp j st).2.world j.id
                ≡ some (as_row (schedule wp j st).1)))
  unfolding schedule
  schedule_not_lost c j st running h =
      let st' : PoolState W = record st { world = (system_halted wp st.world).1 } in
      let done : (schedule_now wp j st').0 ≡ none = ground arith in
      rw (running, schedule) (schedule_now_not_lost c j st' done)
