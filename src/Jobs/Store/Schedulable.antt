-- ===== src/Jobs/Store/Schedulable.antt =====
-- SchedulableJobs and AcceptJob (jobs/store_gorm.go) agree.
use flow_wallet_api.Prelude.{ℕ, ◌+◌, ◌<◌, ◌≡◌, Bool, true, ◌||◌, arith}
use flow_wallet_api.Jobs.Types.{State, Job, is_init, is_accepted, is_error, is_no_available_workers}
use flow_wallet_api.Jobs.Store.{is_acceptable, is_schedulable}

-- The states in which a job still has to run.
abbrev pub is_pending : State → Bool
is_pending s = is_init s || is_accepted s || is_error s || is_no_available_workers s

-- A job that satisfies the WHERE clause of SchedulableJobs is acceptable at the same moment, and a
-- pending job that was not written for longer than both grace periods satisfies it.
pub is_schedulable_sound :
    (now accepted_grace re_schedulable_grace : ℕ) (j : Job)
    → (is_schedulable now accepted_grace re_schedulable_grace j ≡ true
        → is_acceptable now accepted_grace j ≡ true)
      × (is_pending j.state ≡ true
          → j.updated_at + accepted_grace < now
          → j.updated_at + re_schedulable_grace < now
          → is_schedulable now accepted_grace re_schedulable_grace j ≡ true)
unfolding is_schedulable is_acceptable
is_schedulable_sound now accepted_grace re_schedulable_grace j =
    (λ h. ground arith, λ p a r. ground arith)
