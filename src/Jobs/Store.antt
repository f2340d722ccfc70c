-- ===== src/Jobs/Store.antt =====
-- jobs/store_gorm.go: the SQL store of jobs. gorm is the parameter `JobTable`.
pub mod Accept
pub mod Contract
pub mod Memory
pub mod Tests
pub mod Schedulable
use flow_wallet_api.Prelude.{
  ℕ, ◌+◌, ◌≡◌, Bool, true, false, not, ◌&&◌, ◌||◌, Option, none, some, List, Text, bytes, ltb, ◌==◌,
  if◌then◌else◌,
}
use flow_wallet_api.Errors.{GoError, plain, Result, ok, err}
use flow_wallet_api.Datastore.{ListOptions, Connection, gorm_transaction}
use flow_wallet_api.Jobs.Types.{
  State, accepted, Job, StatusQuery, Store, OnJob, is_init, is_accepted, is_no_available_workers,
  is_error, is_complete, is_failed,
}

-- The table `jobs` as a finite map from ids to rows. A row has no column for ShouldSendNotification (gorm:"-").
abbrev pub Rows : Type 0
Rows = ℕ → Option Job

abbrev pub as_row : Job → Job
as_row j = record j { should_send_notification = false }

abbrev pub write : Rows → Job → Rows
write rows j id = if id == j.id then some (as_row j) else rows id

-- What GormStore calls on *gorm.DB, for the table `jobs`. `find` is WHERE, ORDER BY created_at desc,
-- LIMIT and OFFSET; `first_for_update` is First under a row lock. The laws are gorm's documented
-- behaviour: a read returns the row that is there and changes none, Save stamps updated_at and
-- replaces one row or fails and changes none, Create adds a row under an id that is
-- not there yet or fails, a rollback, or a COMMIT that fails, restores the rows that Begin saw.
pub record JobTable (W : Type 0) : Type 0 where
  pub connection : Connection W
  pub now : W → ℕ
  pub new_uuid : W → ℕ × W
  pub create : OnJob W
  pub save : OnJob W
  pub first : ℕ → W → Result Job × W
  pub first_for_update : ℕ → W → Result Job × W
  pub find : (Job → Bool) → ListOptions → W → Result (List Job) × W
  pub count_by_state : W → Result (List StatusQuery) × W
  pub rows : W → Rows
  pub rows_at_begin : W → Rows
  pub begin_keeps : (w : W) → rows (connection.begin w) ≡ rows w
  pub begin_marks : (w : W) → rows_at_begin (connection.begin w) ≡ rows w
  pub commit_persists :
      (w : W) → (connection.commit w).0 ≡ none → rows (connection.commit w).1 ≡ rows w
  pub commit_fails :
      (w : W) {e : GoError}
      → (connection.commit w).0 ≡ some e
      → rows (connection.commit w).1 ≡ rows_at_begin w
  pub rollback_restores : (w : W) → rows (connection.rollback w) ≡ rows_at_begin w
  pub first_for_update_ok :
      (id : ℕ) (w : W) (j : Job) → (first_for_update id w).0 ≡ ok j → rows w id ≡ some j
  pub first_for_update_id :
      (id : ℕ) (w : W) (j : Job) → (first_for_update id w).0 ≡ ok j → j.id ≡ id
  pub first_for_update_keeps : (id : ℕ) (w : W) → rows (first_for_update id w).1 ≡ rows w
  pub first_for_update_marks :
      (id : ℕ) (w : W) → rows_at_begin (first_for_update id w).1 ≡ rows_at_begin w
  pub save_stamps :
      (j : Job) (w : W) → (save j w).0 ≡ none → (save j w).1 ≡ record j { updated_at = now w }
  pub save_writes :
      (j : Job) (w : W) → (save j w).0 ≡ none → rows (save j w).2 ≡ write (rows w) (save j w).1
  pub save_fails :
      (j : Job) (w : W) (e : GoError) → (save j w).0 ≡ some e → rows (save j w).2 ≡ rows w
  pub new_uuid_keeps : (w : W) → rows (new_uuid w).1 ≡ rows w
  pub create_writes :
      (j : Job) (w : W)
      → (create j w).0 ≡ none
      → ((create j w).1.id ≡ j.id)
        × (rows w j.id ≡ none)
        × (rows (create j w).2 ≡ write (rows w) (create j w).1)
  pub create_fails :
      (j : Job) (w : W) {e : GoError} → (create j w).0 ≡ some e → rows (create j w).2 ≡ rows w
  pub save_marks : (j : Job) (w : W) → rows_at_begin (save j w).2 ≡ rows_at_begin w

-- isAcceptable, at the time `now`; `updated_at > now - grace` is written without a subtraction.
unfoldable pub is_acceptable : ℕ → ℕ → Job → Bool
is_acceptable now grace j =
    if is_accepted j.state && ltb now (j.updated_at + grace)
    then false
    else if is_complete j.state || is_failed j.state
    then false
    else true

abbrev pub not_acceptable : GoError
not_acceptable = plain (bytes "error job is not acceptable")

-- The WHERE clause of SchedulableJobs, at the time `now`.
unfoldable pub is_schedulable : ℕ → ℕ → ℕ → Job → Bool
is_schedulable now accepted_grace re_schedulable_grace j =
    ((is_init j.state || is_accepted j.state) && ltb (j.updated_at + accepted_grace) now)
    || ((is_error j.state || is_no_available_workers j.state)
        && ltb (j.updated_at + re_schedulable_grace) now)

module _ {W : Type 0} (t : JobTable W) where
  open t use {connection, now, new_uuid, create, save, first, first_for_update, find}

  -- The function that AcceptJob runs inside its transaction.
  pub accept_locked : ℕ → OnJob W
  accept_locked grace j w =
      let (r, w') = first_for_update j.id w in
      elim r [
        | err e ↦ (some e, j, w')
        | ok stored ↦
            if is_acceptable (now w') grace stored
            then save (record j { state = accepted; exec_count = stored.exec_count + 1 }) w'
            else (some not_acceptable, j, w')
      ]

  -- GormStore.AcceptJob
  unfoldable pub accept_job : ℕ → OnJob W
  unfolding accept_locked gorm_transaction
  accept_job grace j w =
      if is_acceptable (now w) grace j
      then gorm_transaction connection (accept_locked grace j) w
      else (some not_acceptable, j, w)

  -- GormStore.InsertJob, with the hook BeforeCreate
  unfoldable pub insert_job : OnJob W
  insert_job j w = let (id, w') = new_uuid w in create (record j { id = id }) w'

  -- GormStore.SchedulableJobs
  unfoldable pub schedulable_jobs : ℕ → ℕ → ListOptions → W → Result (List Job) × W
  unfolding is_schedulable
  schedulable_jobs accepted_grace re_schedulable_grace o w =
      find (is_schedulable (now w) accepted_grace re_schedulable_grace) o w

  -- GormStore, as a Store
  unfoldable pub gorm_store : Store W
  unfolding accept_job insert_job schedulable_jobs
  gorm_store = record {
    jobs = find (λ _. true);
    job = first;
    insert_job = insert_job;
    update_job = save;
    accept_job = accept_job;
    schedulable_jobs = schedulable_jobs;
    status = t.count_by_state;
  }
