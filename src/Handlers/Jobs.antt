-- ===== src/Handlers/Jobs.antt =====
-- handlers/jobs.go and handlers/jobs_func.go: the HTTP handlers for jobs.
pub mod Details
use flow_wallet_api.Prelude.{List, map, Text, bytes, ℤ}
use flow_wallet_api.Errors.{Result}
use flow_wallet_api.Jobs.Types.{Job, JsonResponse, to_json_response}
use flow_wallet_api.Handlers.Writing.{Writer, HttpRequest, var, Atoi, or_zero, respond}

-- The interface jobs.Service.
pub record JobService (W : Type 0) : Type 0 where
  pub list : ℤ → ℤ → W → Result (List Job) × W
  pub details : Text → W → Result Job × W

module _ {W : Type 0} (service : JobService W) (encode : JsonResponse → Text)
    (encode_list : List JsonResponse → Text) where
  -- ListFunc
  pub list_func : Atoi → HttpRequest → W → Writer → Writer × W
  list_func atoi r w =
      respond 200 (λ js. encode_list (map to_json_response js))
        (service.list (or_zero (atoi (r.form_value (bytes "limit"))))
          (or_zero (atoi (r.form_value (bytes "offset")))) w)

  -- DetailsFunc
  unfoldable pub details_func : HttpRequest → W → Writer → Writer × W
  details_func r w =
      respond 200 (λ j. encode (to_json_response j)) (service.details (var r (bytes "jobId")) w)
