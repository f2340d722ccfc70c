-- ===== src/Jobs/Store/Tests.antt =====
-- Examples for jobs/store_gorm.go, on a table in memory.
use flow_wallet_api.Prelude.{◌+◌, ◌<◌, ◌≡◌, ◌≢◌, refl, inl, inr, true, none, some, arith}
use flow_wallet_api.Jobs.Types.{accepted, complete, Job}
use flow_wallet_api.Jobs.Store.{is_acceptable, is_schedulable, accept_job, insert_job, gorm_store}
use flow_wallet_api.Jobs.Store.Accept.{accept_job_exclusive, accept_job_terminal}
use flow_wallet_api.Jobs.Store.Contract.{IsJobStore, gorm_store-IsJobStore}
use flow_wallet_api.Jobs.Store.Schedulable.{is_schedulable_sound}
use flow_wallet_api.Jobs.Store.Memory.{memory, some_job, holding}

after_accept :
    (accept_job memory 100 some_job (holding some_job)).2.held 1
    ≡ some (record some_job { state = accepted; exec_count = 1; updated_at = 1000 })
unfolding accept_job is_acceptable
after_accept = refl

inserted : (insert_job memory some_job (holding some_job)).1.id ≡ 2
unfolding insert_job
inserted = refl

accept_job_exclusive_example :
    (accept_job memory 100 some_job (accept_job memory 100 some_job (holding some_job)).2).0 ≢ none
unfolding accept_job is_acceptable
accept_job_exclusive_example =
    accept_job_exclusive memory 100 some_job some_job (holding some_job)
      (accept_job memory 100 some_job (holding some_job)).2 refl (inr refl) refl refl (omega arith)

abbrev done_job : Job
done_job = record some_job { state = complete }

accept_job_terminal_example : (accept_job memory 100 some_job (holding done_job)).0 ≢ none
accept_job_terminal_example =
    accept_job_terminal memory 100 some_job done_job (holding done_job) refl (inl refl)

gorm_store-IsJobStore_example : IsJobStore (gorm_store memory) (λ w. w.held)
gorm_store-IsJobStore_example = gorm_store-IsJobStore memory

is_schedulable_sound_example :
    (is_schedulable 1000 100 50 some_job ≡ true → is_acceptable 1000 100 some_job ≡ true)
    × (true ≡ true → 0 + 100 < 1000 → 0 + 50 < 1000 → is_schedulable 1000 100 50 some_job ≡ true)
is_schedulable_sound_example = is_schedulable_sound 1000 100 50 some_job
