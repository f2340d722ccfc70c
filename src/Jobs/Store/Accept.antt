-- ===== src/Jobs/Store/Accept.antt =====
-- What AcceptJob (jobs/store_gorm.go) guarantees of the row that it accepts.
use flow_wallet_api.Prelude.{
  ℕ, ◌+◌, ◌<◌, ◌≡◌, ◌≢◌, refl, sym, ap, ap₂, ◌∙◌, ◌⊎◌, inl, inr, true, none, some, arith,
  Bool-cases,
}
use flow_wallet_api.Errors.{GoError, ok, Result-cases}
use flow_wallet_api.Datastore.{
  started, gorm_transaction, gorm_transaction_result, Committed, gorm_transaction_commits,
  gorm_transaction_ends, gorm_transaction_fails,
}
use flow_wallet_api.Jobs.Types.{accepted, complete, failed, Job}
use flow_wallet_api.Jobs.Store.{
  Rows, as_row, write, JobTable, is_acceptable, accept_locked, accept_job,
}

pub write_self : (r : Rows) (j : Job) (id : ℕ) → id ≡ j.id → write r j id ≡ some (as_row j)
write_self r j id e = ground arith

-- After the test on the job in hand, the outcome is that of the transaction.
module _ {W : Type 0} (t : JobTable W) where
  open t use {connection, now, save, first_for_update, rows, rows_at_begin}

  -- The world in which AcceptJob reads the row under its lock, and the time of that read.
  abbrev pub locked_world : ℕ → W → W
  locked_world id w = (first_for_update id (started connection w)).1

  abbrev pub lock_time : ℕ → W → ℕ
  lock_time id w = now (locked_world id w)

  started_keeps : (w : W) → rows (started connection w) ≡ rows w
  started_keeps w = elim (Bool-cases connection.is_sqlite) [
    | inl e ↦ rw e refl
    | inr e ↦ rw e (t.begin_keeps w)
  ]

  locked_world_keeps : (id : ℕ) (w : W) → rows (locked_world id w) ≡ rows w
  locked_world_keeps id w = t.first_for_update_keeps id (started connection w) ∙ started_keeps w

  -- The job that AcceptJob saves, once the locked read returned `stored`.
  abbrev pub to_accept : Job → Job → Job
  to_accept j stored = record j { state = accepted; exec_count = stored.exec_count + 1 }

  accept_locked_ok :
      (grace : ℕ) (j : Job) (w : W)
      → (accept_locked t grace j w).0 ≡ none
      → (stored : Job) × ((first_for_update j.id w).0 ≡ ok stored)
        × (is_acceptable (now (first_for_update j.id w).1) grace stored ≡ true)
        × ((save (to_accept j stored) (first_for_update j.id w).1).0 ≡ none)
        × (accept_locked t grace j w ≡ save (to_accept j stored) (first_for_update j.id w).1)
  unfolding accept_locked
  accept_locked_ok grace j w h = elim (Result-cases (first_for_update j.id w).0) [
    | inr (x, e) ↦ ground arith
    | inl (stored, e) ↦
        elim (Bool-cases (is_acceptable (now (first_for_update j.id w).1) grace stored)) [
          | inr no_accept ↦ ground arith
          | inl accept ↦ (stored, e, accept, ground arith, ground arith)
        ]
  ]

  -- AcceptJob succeeds only through the transaction.
  accept_job_locked :
      (grace : ℕ) (j : Job) (w : W)
      → (accept_job t grace j w).0 ≡ none
      → accept_job t grace j w ≡ gorm_transaction connection (accept_locked t grace j) w
  unfolding accept_job
  accept_job_locked grace j w h = ground arith

  accept_locked_marks :
      (grace : ℕ) (j : Job) (w : W) → rows_at_begin (accept_locked t grace j w).2 ≡ rows_at_begin w
  unfolding accept_locked
  accept_locked_marks grace j w = elim (Result-cases (first_for_update j.id w).0) [
    | inr (x, r) ↦ rw (r, accept_locked) (t.first_for_update_marks j.id w)
    | inl (stored, r) ↦ ground (
      arith,
      t.first_for_update_marks j.id w,
      t.save_marks (to_accept j stored) (first_for_update j.id w).1,
    )
  ]

  -- A successful AcceptJob found an acceptable row under its lock, and replaces that row alone, or none where
  -- its COMMIT has failed, whose error is dropped.
  pub accept_job_ok :
      (grace : ℕ) (j : Job) (w : W)
      → (accept_job t grace j w).0 ≡ none
      → (stored : Job) × (rows w j.id ≡ some stored)
        × (is_acceptable (lock_time j.id w) grace stored ≡ true)
        × ((accept_job t grace j w).1
            ≡ record (to_accept j stored) { updated_at = lock_time j.id w })
        × (Committed connection (accept_locked t grace j) w
            → rows (accept_job t grace j w).2 ≡ write (rows w) (accept_job t grace j w).1)
        × ((rows (accept_job t grace j w).2 ≡ write (rows w) (accept_job t grace j w).1)
            ⊎ (rows (accept_job t grace j w).2 ≡ rows w))
  accept_job_ok grace j w h =
      let tx = started connection w in
      let eq = accept_job_locked grace j w h in
      let result = gorm_transaction_result connection (accept_locked t grace j) w in
      let done : (accept_locked t grace j tx).0 ≡ none =
        sym result.0 ∙ sym (ap (λ r. r.0) eq) ∙ h in
      let (stored, found, accept, saved, same) = accept_locked_ok grace j tx done in
      let saved_job : (accept_job t grace j w).1
          ≡ (save (to_accept j stored) (locked_world j.id w)).1 =
        ap (λ r. r.1) eq ∙ result.1 ∙ ap (λ r. r.1) same in
      let written : rows (accept_locked t grace j tx).2
          ≡ write (rows w) (accept_job t grace j w).1 =
        ap (λ r. rows r.2) same
        ∙ t.save_writes (to_accept j stored) (locked_world j.id w) saved
        ∙ ap₂ write (locked_world_keeps j.id w) (sym saved_job) in
      (
        stored,
        ap (λ r. r j.id) (sym (started_keeps w)) ∙ t.first_for_update_ok j.id tx stored found,
        accept,
        saved_job ∙ t.save_stamps (to_accept j stored) (locked_world j.id w) saved,
        λ committed.
            ap (λ r. rows r.2) eq
            ∙ gorm_transaction_commits connection (accept_locked t grace j) rows w t.commit_persists
                committed done
            ∙ written,
        elim (gorm_transaction_ends connection (accept_locked t grace j) rows w rows_at_begin
            t.commit_persists (λ u e lost. t.commit_fails u {e = e} lost) done) [
              | inl kept ↦ inl (ap (λ r. rows r.2) eq ∙ kept ∙ written)
              | inr undone ↦ inr (
                  ap (λ r. rows r.2) eq
                  ∙ undone
                  ∙ accept_locked_marks grace j (connection.begin w)
                  ∙ t.begin_marks w)
            ],
      )

  accept_locked_fails :
      (grace : ℕ) (j : Job) (w : W) {e : GoError}
      → (accept_locked t grace j w).0 ≡ some e
      → rows (accept_locked t grace j w).2 ≡ rows w
  unfolding accept_locked
  accept_locked_fails grace j w {e} h = elim (Result-cases (first_for_update j.id w).0) [
    | inr (x, r) ↦ rw (r, accept_locked) (t.first_for_update_keeps j.id w)
    | inl (stored, r) ↦ ground (
      arith,
      t.first_for_update_keeps j.id w,
      t.save_fails (to_accept j stored) (first_for_update j.id w).1 e,
    )
  ]

  -- A failed AcceptJob changes no row.
  pub accept_job_fails :
      (grace : ℕ) (j : Job) (w : W) {e : GoError}
      → (accept_job t grace j w).0 ≡ some e
      → rows (accept_job t grace j w).2 ≡ rows w
  unfolding accept_job
  accept_job_fails grace j w {e} h = elim (Bool-cases (is_acceptable (now w) grace j)) [
    | inr p ↦ rw p refl
    | inl p ↦
        let result = gorm_transaction_result connection (accept_locked t grace j) w in
        let tried : (gorm_transaction connection (accept_locked t grace j) w).0 ≡ some e =
          ground arith in
        rw p (
          gorm_transaction_fails connection (accept_locked t grace j) rows w {e = e}
            (λ sqlite. accept_locked_fails grace j w {e = e} (ground (arith, sym result.0 ∙ tried)))
            (t.rollback_restores _
              ∙ accept_locked_marks grace j (connection.begin w)
              ∙ t.begin_marks w)
            (sym result.0 ∙ tried))
  ]

  -- The job that a successful AcceptJob returns is the row that it leaves behind, once it is committed.
  pub accept_job_stored :
      (grace : ℕ) (j : Job) (w : W)
      → (accept_job t grace j w).0 ≡ none
      → Committed connection (accept_locked t grace j) w
      → rows (accept_job t grace j w).2 j.id ≡ some (as_row (accept_job t grace j w).1)
  accept_job_stored grace j w h committed =
      let (stored, found, accept, job, after, ends) = accept_job_ok grace j w h in
      ap (λ r. r j.id) (after committed)
      ∙ write_self (rows w) (accept_job t grace j w).1 j.id (ap (λ r. r.id) (sym job))

  -- After one AcceptJob has succeeded on a job and its COMMIT has not failed, and while nobody
  -- writes the job's row, a second AcceptJob for the same id that reads the row less than the grace
  -- period after the first has read it fails, whatever copy of the job the second worker holds.
  pub accept_job_exclusive :
      (grace : ℕ) (j k : Job) (w v : W)
      → (accept_job t grace j w).0 ≡ none
      → Committed connection (accept_locked t grace j) w
      → k.id ≡ j.id
      → rows v j.id ≡ rows (accept_job t grace j w).2 j.id
      → lock_time k.id v < lock_time j.id w + grace
      → (accept_job t grace k v).0 ≢ none
  unfolding is_acceptable
  accept_job_exclusive grace j k w v h committed same unwritten early h' =
      let (stored, found, accept, job, after, ends) = accept_job_ok grace j w h in
      let (stored', found', accept', job', after', ends') = accept_job_ok grace k v h' in
      let row : some stored' ≡ some (as_row (accept_job t grace j w).1) =
        sym found' ∙ ap (rows v) same ∙ unwritten ∙ accept_job_stored grace j w h committed in
      ground (arith, row, job)

  -- AcceptJob fails on a job whose row is complete or failed, whatever copy of the job the caller
  -- holds.
  pub accept_job_terminal :
      (grace : ℕ) (k stored : Job) (v : W)
      → rows v k.id ≡ some stored
      → (stored.state ≡ complete) ⊎ (stored.state ≡ failed)
      → (accept_job t grace k v).0 ≢ none
  unfolding is_acceptable
  accept_job_terminal grace k stored v row terminal h =
      let (stored', found', accept', job', after', ends') = accept_job_ok grace k v h in
      ground (arith, sym found' ∙ row)
