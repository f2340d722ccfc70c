-- ===== src/Jobs/Store/Contract.antt =====
-- What the worker pool relies on of its Store, and that the SQL store of jobs/store_gorm.go keeps it.
use flow_wallet_api.Prelude.{ℕ, ◌+◌, ◌≡◌, ◌⊎◌, sym, ap, ◌∙◌, true, false, ◌||◌, none, some, arith}
use flow_wallet_api.Errors.{GoError}
use flow_wallet_api.Jobs.Types.{accepted, Job, Store, is_complete, is_failed}
use flow_wallet_api.Jobs.Store.{
  Rows, write, JobTable, is_acceptable, accept_job, insert_job, gorm_store,
}
use flow_wallet_api.Jobs.Store.Accept.{lock_time, accept_job_ok, accept_job_fails, to_accept}

-- What a store promises about `rows`, the jobs that it holds. UpdateJob writes the one row of the job or
-- fails and writes none. InsertJob does so under an id that is new. AcceptJob writes one row or none, none also where it succeeds and the
-- database has failed to commit; it accepts no row that is complete or failed, and counts the execution from the stored row.
pub record IsJobStore {W : Type 0} (s : Store W) (rows : W → Rows) : Type 0 where
  pub update_writes :
      (j : Job) (w : W)
      → (s.update_job j w).0 ≡ none
      → ((s.update_job j w).1 ≡ record j { updated_at = (s.update_job j w).1.updated_at })
        × (rows (s.update_job j w).2 ≡ write (rows w) (s.update_job j w).1)
  pub update_fails :
      (j : Job) (w : W) {e : GoError}
      → (s.update_job j w).0 ≡ some e
      → rows (s.update_job j w).2 ≡ rows w
  pub insert_writes :
      (j : Job) (w : W)
      → (s.insert_job j w).0 ≡ none
      → (rows w (s.insert_job j w).1.id ≡ none)
        × (rows (s.insert_job j w).2 ≡ write (rows w) (s.insert_job j w).1)
  pub insert_fails :
      (j : Job) (w : W) {e : GoError}
      → (s.insert_job j w).0 ≡ some e
      → rows (s.insert_job j w).2 ≡ rows w
  pub accept_writes :
      (grace : ℕ) (j : Job) (w : W)
      → (s.accept_job grace j w).0 ≡ none
      → (stored : Job) × (rows w j.id ≡ some stored)
        × ((is_complete stored.state || is_failed stored.state) ≡ false)
        × ((s.accept_job grace j w).1 ≡ record j {
          state = accepted;
          exec_count = stored.exec_count + 1;
          updated_at = (s.accept_job grace j w).1.updated_at;
        })
        × ((rows (s.accept_job grace j w).2 ≡ write (rows w) (s.accept_job grace j w).1)
            ⊎ (rows (s.accept_job grace j w).2 ≡ rows w))
  pub accept_fails :
      (grace : ℕ) (j : Job) (w : W) {e : GoError}
      → (s.accept_job grace j w).0 ≡ some e
      → rows (s.accept_job grace j w).2 ≡ rows w

pub record StoreContract {W : Type 0} (s : Store W) : Type 0 where
  pub rows : W → Rows
  pub is_store : IsJobStore s rows

acceptable_not_terminal :
    (now grace : ℕ) (j : Job)
    → is_acceptable now grace j ≡ true
    → (is_complete j.state || is_failed j.state) ≡ false
unfolding is_acceptable
acceptable_not_terminal now grace j h = ground arith

module _ {W : Type 0} (t : JobTable W) where
  open t use {save, new_uuid, rows}

  gorm_accept_writes :
      (grace : ℕ) (j : Job) (w : W)
      → (accept_job t grace j w).0 ≡ none
      → (stored : Job) × (rows w j.id ≡ some stored)
        × ((is_complete stored.state || is_failed stored.state) ≡ false)
        × ((accept_job t grace j w).1 ≡ record j {
          state = accepted;
          exec_count = stored.exec_count + 1;
          updated_at = (accept_job t grace j w).1.updated_at;
        })
        × ((rows (accept_job t grace j w).2 ≡ write (rows w) (accept_job t grace j w).1)
            ⊎ (rows (accept_job t grace j w).2 ≡ rows w))
  gorm_accept_writes grace j w h =
      let (stored, found, accept, job, after, ends) = accept_job_ok t grace j w h in
      (
        stored,
        found,
        acceptable_not_terminal (lock_time t j.id w) grace stored accept,
        job
            ∙ ap (λ u. record (to_accept t j stored) { updated_at = u })
                (ap (λ r. r.updated_at) (sym job)),
        ends,
      )

  gorm_update_writes :
      (j : Job) (w : W)
      → (save j w).0 ≡ none
      → ((save j w).1 ≡ record j { updated_at = (save j w).1.updated_at })
        × (rows (save j w).2 ≡ write (rows w) (save j w).1)
  gorm_update_writes j w h = (
    t.save_stamps j w h
        ∙ ap (λ u. record j { updated_at = u })
            (ap (λ r. r.updated_at) (sym (t.save_stamps j w h))),
    t.save_writes j w h,
  )

  gorm_insert_writes :
      (j : Job) (w : W)
      → (insert_job t j w).0 ≡ none
      → (rows w (insert_job t j w).1.id ≡ none)
        × (rows (insert_job t j w).2 ≡ write (rows w) (insert_job t j w).1)
  unfolding insert_job
  gorm_insert_writes j w h =
      let j' = record j { id = (new_uuid w).0 } in
      let (same, fresh, after) = t.create_writes j' (new_uuid w).1 h in
      (
        ap (rows w) same ∙ sym (ap (λ r. r j'.id) (t.new_uuid_keeps w)) ∙ fresh,
        after ∙ ap (λ r. write r (insert_job t j w).1) (t.new_uuid_keeps w),
      )

  gorm_insert_fails :
      (j : Job) (w : W) {e : GoError}
      → (insert_job t j w).0 ≡ some e
      → rows (insert_job t j w).2 ≡ rows w
  unfolding insert_job
  gorm_insert_fails j w {e} h =
      t.create_fails (record j { id = (new_uuid w).0 }) (new_uuid w).1 {e = e} h
      ∙ t.new_uuid_keeps w

  -- The SQL store keeps the contract of a job store over the rows of its table, which have no
  -- column for the notification flag: a failing call changes no row, a successful UpdateJob or
  -- InsertJob writes exactly its row, a successful AcceptJob writes exactly its row or, where its
  -- COMMIT has failed, none, takes no complete or failed row and counts the execution from the
  -- stored row.
  pub gorm_store-IsJobStore : IsJobStore (gorm_store t) rows
  unfolding gorm_store
  gorm_store-IsJobStore = record {
    update_writes = gorm_update_writes;
    update_fails = λ j w {e} h. t.save_fails j w e h;
    insert_writes = gorm_insert_writes;
    insert_fails = λ j w {e} h. gorm_insert_fails j w {e = e} h;
    accept_writes = gorm_accept_writes;
    accept_fails = λ grace j w {e} h. accept_job_fails t grace j w {e = e} h;
  }

  abbrev pub gorm_contract : StoreContract (gorm_store t)
  gorm_contract = record { rows = rows; is_store = gorm_store-IsJobStore }
