-- ===== src/Jobs/Pool/Counts.antt =====
-- The loop of Status (jobs/workerpool.go) over the rows of a GROUP BY.
use flow_wallet_api.Prelude.{ℕ, ◌≡◌, refl, Bool, List, [], ◌∷◌, if◌then◌else◌}
use flow_wallet_api.Jobs.Types.{
  State, init, accepted, no_available_workers, error, complete, failed, other, JobQueueStatus,
  StatusQuery, is_init, is_accepted, is_no_available_workers, is_error, is_complete, is_failed,
}
use flow_wallet_api.Jobs.Pool.{set_count, set_counts, no_jobs}

-- The count in the last row whose state passes the test, `n` if there is none.
pub last_count : (State → Bool) → ℕ → List StatusQuery → ℕ
last_count p n [] = n
last_count p n (q ∷ qs) = last_count p (if p q.state then q.count else n) qs

-- Every field is the count of its own state.
pub IsCounted : JobQueueStatus → JobQueueStatus → List StatusQuery → Type 0
IsCounted s r qs =
    (r.jobs_init ≡ last_count is_init s.jobs_init qs)
    × (r.jobs_not_accepted ≡ last_count is_no_available_workers s.jobs_not_accepted qs)
    × (r.jobs_accepted ≡ last_count is_accepted s.jobs_accepted qs)
    × (r.jobs_errored ≡ last_count is_error s.jobs_errored qs)
    × (r.jobs_failed ≡ last_count is_failed s.jobs_failed qs)
    × (r.jobs_completed ≡ last_count is_complete s.jobs_completed qs)

set_count_one :
    (s : JobQueueStatus) (st : State) (n : ℕ) (qs : List StatusQuery)
    → ((r : JobQueueStatus) → IsCounted r (set_counts r qs) qs)
    → IsCounted s (set_counts (set_count s st n) qs) (record { state = st; count = n } ∷ qs)
unfolding set_counts IsCounted last_count
set_count_one s init n qs after = after (set_count s init n)
set_count_one s accepted n qs after = after (set_count s accepted n)
set_count_one s no_available_workers n qs after = after (set_count s no_available_workers n)
set_count_one s error n qs after = after (set_count s error n)
set_count_one s complete n qs after = after (set_count s complete n)
set_count_one s failed n qs after = after (set_count s failed n)
set_count_one s (other t) n qs after = after (set_count s (other t) n)

set_counts_from : (qs : List StatusQuery) (s : JobQueueStatus) → IsCounted s (set_counts s qs) qs
unfolding set_counts IsCounted last_count
set_counts_from [] s = (refl, refl, refl, refl, refl, refl)
set_counts_from (q ∷ qs) s = set_count_one s q.state q.count qs (set_counts_from qs)

-- The loop of Status sets each of the six counts to that of the last row for its state, 0 where
-- there is no such row.
set_counts_lem : (qs : List StatusQuery) → IsCounted no_jobs (set_counts no_jobs qs) qs
set_counts_lem qs = set_counts_from qs no_jobs
