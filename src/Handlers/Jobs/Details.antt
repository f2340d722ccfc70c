-- ===== src/Handlers/Jobs/Details.antt =====
-- The handler for one job, over the service of jobs/service.go.
use flow_wallet_api.Prelude.{
  ℕ, ◌≡◌, refl, Option, none, some, List, Text, bytes, text_eq, if◌then◌else◌, Bool, true, false,
}
use flow_wallet_api.Errors.{GoError, error_text, ok, err}
use flow_wallet_api.Jobs.Types.{Job, JsonResponse, to_json_response, Store}
use flow_wallet_api.Jobs.Service.{zero_job, job_not_found, list, details}
use flow_wallet_api.Handlers.{handle_error}
use flow_wallet_api.Handlers.Writing.{
  Writer, no_answer, write, write_error, HttpRequest, var, respond,
}
use flow_wallet_api.Handlers.Jobs.{JobService, details_func}

-- jobs.ServiceImpl as a jobs.Service.
abbrev pub job_service : {W : Type 0} → Store W → (Text → Option ℕ) → JobService W
job_service store parse_uuid = record {
  list = list store parse_uuid;
  details = details store parse_uuid;
}

-- An answer.
abbrev pub answer : ℕ → Text → Writer
answer status text = record { header = some status; content = text }

module _ {W : Type 0} (store : Store W) (parse_uuid : Text → Option ℕ)
    (encode : JsonResponse → Text) (encode_list : List JsonResponse → Text) where
  -- The answer to an error of the store.
  respond_if :
      (b : Bool) (w : W)
      → respond 200
          (λ j. encode (to_json_response j))
          ((if b then err job_not_found else ok zero_job), w)
          no_answer
        ≡ (
          if b
              then answer 404 (bytes "job not found")
              else answer 200 (encode (to_json_response zero_job)),
          w,
        )
  unfolding respond write write_error handle_error error_text
  respond_if true w = refl
  respond_if false w = refl

  -- What DetailsFunc of jobs answers over the service of jobs: 400 for a text that is no id,
  -- without reading the store; the job for an id that is stored; and where the store fails, 404 if
  -- its error is "record not found", and else 200 with an empty job.
  pub details_func_lem :
      (r : HttpRequest) (w w' : W)
      → (parse_uuid (var r (bytes "jobId")) ≡ none
          → details_func (job_service store parse_uuid) encode encode_list r w no_answer
            ≡ (answer 400 (bytes "invalid job id"), w))
        × ((id : ℕ) (j : Job)
            → parse_uuid (var r (bytes "jobId")) ≡ some id
            → store.job id w ≡ (ok j, w')
            → details_func (job_service store parse_uuid) encode encode_list r w no_answer
              ≡ (answer 200 (encode (to_json_response j)), w'))
        × ((id : ℕ) (e : GoError)
            → parse_uuid (var r (bytes "jobId")) ≡ some id
            → store.job id w ≡ (err e, w')
            → details_func (job_service store parse_uuid) encode encode_list r w no_answer ≡ (
              if text_eq (error_text e) (bytes "record not found")
                  then answer 404 (bytes "job not found")
                  else answer 200 (encode (to_json_response zero_job)),
              w',
            ))
  unfolding details_func details respond write write_error handle_error error_text
  details_func_lem r w w' = (
    λ p. rw (p, details) refl,
    λ id j p q. rw (p, details) (rw q refl),
    λ id e p q.
        rw (p, details) (rw q (respond_if (text_eq (error_text e) (bytes "record not found")) w')),
  )
