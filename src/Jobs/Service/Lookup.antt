-- ===== src/Jobs/Service/Lookup.antt =====
-- Details (jobs/service.go).
use flow_wallet_api.Prelude.{ℕ, ◌≡◌, refl, Option, none, some, Text, bytes, text_eq, if◌then◌else◌}
use flow_wallet_api.Errors.{GoError, error_text, ok, err}
use flow_wallet_api.Jobs.Types.{Job, Store}
use flow_wallet_api.Jobs.Service.{zero_job, invalid_job_id, job_not_found, found_job, details}

module _ {W : Type 0} (store : Store W) (parse_uuid : Text → Option ℕ) where
  -- Details answers 400 for a text that is no id and then reads nothing; for an id it returns the
  -- stored job, or 404 where the store's error is "record not found", and an empty job for any
  -- other error of the store.
  details_lem :
      (text : Text) (w : W)
      → (parse_uuid text ≡ none → details store parse_uuid text w ≡ (err invalid_job_id, w))
        × ((id : ℕ) (j : Job)
            → parse_uuid text ≡ some id
            → (store.job id w).0 ≡ ok j
            → (details store parse_uuid text w).0 ≡ ok j)
        × ((id : ℕ) (e : GoError)
            → parse_uuid text ≡ some id
            → (store.job id w).0 ≡ err e
            → (details store parse_uuid text w).0 ≡ (
                if text_eq (error_text e) (bytes "record not found")
                then err job_not_found
                else ok zero_job))
  unfolding details found_job
  details_lem text w = (
    λ p. rw (p, details) refl,
    λ id j p r. rw (p, details) (rw r refl),
    λ id e p r. rw (p, details) (rw r refl),
  )
