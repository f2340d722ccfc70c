-- ===== src/Jobs/Store/Memory.antt =====
-- A table of jobs in memory, on which the examples run: every call succeeds where the documented one
-- can, the clock stands still, and a rollback brings back the rows of the last Begin.
use flow_wallet_api.Prelude.{
  ℕ, suc, ◌≡◌, refl, ap, inl, inr, Bool, false, Option, none, some, List, [], ◌∷◌, ◌++◌, arith,
  bytes, ◌==◌, Option-cases, if◌then◌else◌,
}
use flow_wallet_api.Errors.{GoError, plain, record_not_found, Result, ok, err}
use flow_wallet_api.Datastore.{ListOptions}
use flow_wallet_api.Jobs.Types.{init, Job, OnJob}
use flow_wallet_api.Jobs.Store.{Rows, write, JobTable}

pub record Memory : Type 0 where
  pub clock : ℕ
  pub next_id : ℕ
  pub held : Rows
  pub held_at_begin : Rows

abbrev create_job : OnJob Memory
create_job j w = elim (w.held j.id) [
  | none ↦ (none, j, record w { held = write w.held j })
  | some k ↦ (some (plain (bytes "duplicate key")), j, w)
]

abbrev save_job : OnJob Memory
save_job j w =
    let j' = record j { updated_at = w.clock } in (none, j', record w { held = write w.held j' })

abbrev read_job : ℕ → Memory → Result Job × Memory
read_job id w = elim (w.held id) [
  | none ↦ (err record_not_found, w)
  | some j ↦ (if j.id == id then ok j else err record_not_found, w)
]

abbrev one_job : (Job → Bool) → Option Job → List Job
one_job p none = []
one_job p (some j) = if p j then j ∷ [] else []

-- The rows 1 and 2 that match.
abbrev find_jobs : (Job → Bool) → ListOptions → Memory → Result (List Job) × Memory
find_jobs p o w = (ok (one_job p (w.held 1) ++ one_job p (w.held 2)), w)

pub read_job_ok : (id : ℕ) (w : Memory) (j : Job) → (read_job id w).0 ≡ ok j → w.held id ≡ some j
read_job_ok id w j h = elim (Option-cases (w.held id)) [
  | inl e ↦ ground arith
  | inr (k, e) ↦ ground arith
]

pub read_job_id : (id : ℕ) (w : Memory) (j : Job) → (read_job id w).0 ≡ ok j → j.id ≡ id
read_job_id id w j h = elim (Option-cases (w.held id)) [
  | inl e ↦ ground arith
  | inr (k, e) ↦ ground arith
]

pub read_job_world : (id : ℕ) (w : Memory) → (read_job id w).1 ≡ w
read_job_world id w = elim (Option-cases (w.held id)) [
  | inl e ↦ rw (e, read_job) refl
  | inr (k, e) ↦ rw (e, read_job) refl
]

pub create_job_ok :
    (j : Job) (w : Memory)
    → (create_job j w).0 ≡ none
    → ((create_job j w).1.id ≡ j.id)
      × (w.held j.id ≡ none)
      × ((create_job j w).2.held ≡ write w.held (create_job j w).1)
create_job_ok j w h = elim (Option-cases (w.held j.id)) [
  | inl e ↦ rw (e, create_job) (refl, refl, refl)
  | inr (k, e) ↦ ground arith
]

pub create_job_fails :
    (j : Job) (w : Memory) {e : GoError}
    → (create_job j w).0 ≡ some e
    → (create_job j w).2.held ≡ w.held
create_job_fails j w h = elim (Option-cases (w.held j.id)) [
  | inl e ↦ ground arith
  | inr (k, e) ↦ rw (e, create_job) refl
]

pub save_job_fails :
    (j : Job) (w : Memory) (e : GoError)
    → (save_job j w).0 ≡ some e
    → (save_job j w).2.held ≡ w.held
save_job_fails j w e h = ground arith

pub never : {A : Type 0} {x y : A} {e : GoError} → none ≡ some e → x ≡ y
never h = ground arith

abbrev pub memory : JobTable Memory
memory = record {
  connection = record {
    is_sqlite = false;
    begin = λ w. record w { held_at_begin = w.held };
    rollback = λ w. record w { held = w.held_at_begin };
    commit = λ w. (none, w);
  };
  now = λ w. w.clock;
  new_uuid = λ w. (w.next_id, record w { next_id = suc w.next_id });
  create = create_job;
  save = save_job;
  first = read_job;
  first_for_update = read_job;
  find = find_jobs;
  count_by_state = λ w. (ok [], w);
  rows = λ w. w.held;
  rows_at_begin = λ w. w.held_at_begin;
  begin_keeps = λ w. refl;
  begin_marks = λ w. refl;
  commit_persists = λ w h. refl;
  commit_fails = λ w {e} h. never {e = e} h;
  rollback_restores = λ w. refl;
  first_for_update_ok = read_job_ok;
  first_for_update_id = read_job_id;
  first_for_update_keeps = λ id w. ap (λ v. v.held) (read_job_world id w);
  first_for_update_marks = λ id w. ap (λ v. v.held_at_begin) (read_job_world id w);
  save_stamps = λ j w h. refl;
  save_writes = λ j w h. refl;
  save_fails = save_job_fails;
  new_uuid_keeps = λ w. refl;
  create_writes = create_job_ok;
  create_fails = λ j w {e} h. create_job_fails j w {e = e} h;
  save_marks = λ j w. refl;
}

-- A job that is not in the table yet.
abbrev pub some_job : Job
some_job = record {
  id = 1;
  job_type = bytes "sync";
  state = init;
  error_message = [];
  errors = [];
  result = [];
  transaction_id = [];
  exec_count = 0;
  created_at = 0;
  updated_at = 0;
  should_send_notification = false;
  attributes = [];
}

-- The table at the time 1000, with one row.
abbrev pub holding : Job → Memory
holding j = record {
  clock = 1000;
  next_id = 2;
  held = write (λ id. none) j;
  held_at_begin = λ id. none;
}
