-- ===== src/Jobs/Pool/Keeps.antt =====
-- What scheduling and notifying leave alone in the store (jobs/workerpool.go).
use flow_wallet_api.Prelude.{
  ℕ, ◌≡◌, ◌≢◌, refl, ap, ◌∙◌, inl, inr, Bool, false, Option, none, some, arith, Text, [],
  Option-cases,
}
use flow_wallet_api.Errors.{ok, Result-cases}
use flow_wallet_api.Jobs.Types.{
  no_available_workers, Job, to_json_response, send_job_status_job_type,
}
use flow_wallet_api.Jobs.Store.{Rows, write}
use flow_wallet_api.Jobs.Store.Contract.{StoreContract}
use flow_wallet_api.Jobs.Pool.{
  WorkerPool, PoolState, try_enqueue, system_halted, update_in, schedule_now, schedule, create_job,
  new_job, notify_with, schedule_job_status_notification,
}

-- The store keeps its contract, and the system service, which is asked only whether the system is
-- halted, writes no job.
pub record PoolContract {W : Type 0} (wp : WorkerPool W) : Type 0 where
  pub store_contract : StoreContract wp.store
  pub halted_keeps : (w : W) → store_contract.rows (system_halted wp w).1 ≡ store_contract.rows w

pub write_ne : (r : Rows) (j : Job) (k : ℕ) → k ≢ j.id → write r j k ≡ r k
write_ne r j k h = ground arith

pub some_ne_none {ℓ} : {A : Type ℓ} {o : Option A} {a : A} → o ≡ some a → o ≢ none
some_ne_none e h = cc

module _ {W : Type 0} (wp : WorkerPool W) (c : PoolContract wp) where
  open c use {store_contract}
  open store_contract use {rows}

  try_enqueue_world :
      (j : Job) (block : Bool) (st : PoolState W) → (try_enqueue wp j block st).1.world ≡ st.world
  unfolding try_enqueue
  try_enqueue_world j block st = ground arith

  -- UpdateJob touches no other row.
  pub update_in_keeps :
      (j : Job) (st : PoolState W) (k : ℕ)
      → k ≢ j.id
      → rows (update_in wp j st).2.world k ≡ rows st.world k
  update_in_keeps j st k h = elim (Option-cases (wp.store.update_job j st.world).0) [
    | inl e ↦
        let (same, after) = store_contract.is_store.update_writes j st.world e in
        ap (λ r. r k) after
        ∙ write_ne (rows st.world) (update_in wp j st).1 k (λ q. h (q ∙ ap (λ r. r.id) same))
    | inr (x, e) ↦ ap (λ r. r k) (store_contract.is_store.update_fails j st.world {e = x} e)
  ]

  pub update_in_id :
      (j : Job) (st : PoolState W) → (update_in wp j st).0 ≡ none → (update_in wp j st).1.id ≡ j.id
  update_in_id j st e = ap (λ r. r.id) (store_contract.is_store.update_writes j st.world e).0

  schedule_now_keeps :
      (j : Job) (st : PoolState W) (k : ℕ)
      → k ≢ j.id
      → rows (schedule_now wp j st).2.world k ≡ rows st.world k
  unfolding schedule_now
  schedule_now_keeps j st k h =
      let st' = (try_enqueue wp j false st).1 in
      let same = ap (λ w. rows w k) (try_enqueue_world j false st) in
      ground (arith, same, update_in_keeps (record j { state = no_available_workers }) st' k h)

  -- Schedule writes at most the row of its job.
  pub schedule_keeps :
      (j : Job) (st : PoolState W) (k : ℕ)
      → k ≢ j.id
      → rows (schedule wp j st).2.world k ≡ rows st.world k
  unfolding schedule
  schedule_keeps j st k h =
      let st' : PoolState W = record st { world = (system_halted wp st.world).1 } in
      let same = ap (λ r. r k) (c.halted_keeps st.world) in
      elim (Result-cases (system_halted wp st.world).0) [
        | inr (x, e) ↦ rw (e, schedule) same
        | inl (halted, e) ↦ ground (arith, same, schedule_now_keeps j st' k h)
      ]

  notify_with_keeps :
      (parent j : Job) (st : PoolState W) (k : ℕ)
      → k ≢ j.id
      → rows (notify_with wp parent j st).1.world k ≡ rows st.world k
  unfolding notify_with
  notify_with_keeps parent j st k h = elim (Result-cases (wp.marshal (to_json_response parent))) [
    | inr (x, e) ↦ rw (e, notify_with) refl
    | inl (content, e) ↦
        let j' : Job = record j { result = content } in
        elim (Option-cases (update_in wp j' st).0) [
          | inr (x, u) ↦ ground (arith, update_in_keeps j' st k h)
          | inl u ↦
              let named = update_in_id j' st u in
              let after = (update_in wp j' st).2 in
              ground (
                arith,
                update_in_keeps j' st k h,
                schedule_keeps (update_in wp j' st).1 after k (λ q. h (q ∙ named)),
              )
        ]
  ]

  -- CreateJob adds a row, and leaves those that are there.
  create_job_keeps :
      (job_type transaction_id attributes : Text) (w : W) (k : ℕ) {x : Job}
      → rows w k ≡ some x
      → (rows (create_job wp job_type transaction_id attributes w).1 k ≡ some x)
        × ((j : Job) → (create_job wp job_type transaction_id attributes w).0 ≡ ok j → k ≢ j.id)
  unfolding create_job
  create_job_keeps job_type transaction_id attributes w k h =
      let j = new_job wp job_type transaction_id attributes in
      elim (Option-cases (wp.store.insert_job j w).0) [
        | inr (x, e) ↦
            rw (e, create_job)
              (ap (λ r. r k) (store_contract.is_store.insert_fails j w {e = x} e) ∙ h, λ i p. cc)
        | inl e ↦
            let (fresh, after) = store_contract.is_store.insert_writes j w e in
            let inserted = (wp.store.insert_job j w).1 in
            let ne : k ≢ inserted.id = λ q. some_ne_none h (ap (rows w) q ∙ fresh) in
            rw (e, create_job)
              (
                ap (λ r. r k) after ∙ write_ne (rows w) inserted k ne ∙ h,
                λ i p q. ne (ground arith),
              )
      ]

  -- A status notification adds a job of its own: no row that is there changes.
  pub notification_keeps :
      (parent : Job) (st : PoolState W) (k : ℕ) {x : Job}
      → rows st.world k ≡ some x
      → rows (schedule_job_status_notification wp parent st).1.world k ≡ some x
  unfolding schedule_job_status_notification
  notification_keeps parent st k {x} h =
      let created = create_job wp send_job_status_job_type [] [] st.world in
      let keeps = create_job_keeps send_job_status_job_type [] [] st.world k {x = x} h in
      elim (Result-cases created.0) [
        | inr (y, e) ↦ rw (e, schedule_job_status_notification) keeps.0
        | inl (j, e) ↦
            rw (e, schedule_job_status_notification)
              (notify_with_keeps parent j (record st { world = created.1 }) k (keeps.1 j e)
                ∙ keeps.0)
      ]
