-- ===== src/Handlers/Transactions.antt =====
-- handlers/transactions.go and handlers/transactions_func.go: the HTTP handlers for transactions.
use flow_wallet_api.Prelude.{ℕ, Bool, Option, none, some, List, map, Text, bytes, ℤ}
use flow_wallet_api.Errors.{GoError, plain, request_error, Result, ok, err}
use flow_wallet_api.FlowHelpers.{Sdk}
use flow_wallet_api.Jobs.Types.{Job}
use flow_wallet_api.Jobs.Types as Jobs
use flow_wallet_api.Transactions.Types.{
  TransactionType, general, Transaction, JsonResponse, to_json_response, Argument,
}
use flow_wallet_api.Transactions.Signed.{
  SignedTransaction, SignedTransactionJsonResponse, signed_json_response,
}
use flow_wallet_api.Handlers.Settings.{empty_body_error}
use flow_wallet_api.Handlers.Writing.{
  Writer, write, write_error, HttpRequest, var, is_sync, Atoi, or_zero, respond, with_body,
  refuse_with, refuse_some, respond_created,
}

-- The interface transactions.Service, as the handlers call it. Cadence values are texts.
pub record TransactionService (W A E : Type 0) : Type 0 where
  pub create :
      Bool
      → Text
      → Text
      → List Argument
      → TransactionType
      → W
      → Result (Option Job × Option (Transaction E)) × W
  pub sign : Text → Text → List Argument → W → Result (SignedTransaction A) × W
  pub list : ℤ → ℤ → W → Result (List (Transaction E)) × W
  pub list_for_account : TransactionType → Text → ℤ → ℤ → W → Result (List (Transaction E)) × W
  pub details : Text → W → Result (Transaction E) × W
  pub details_for_account : TransactionType → Text → Text → W → Result (Transaction E) × W
  pub execute_script : Text → List Argument → W → Result Text × W

-- JSONRequest
pub record JsonRequest : Type 0 where
  pub code : Text
  pub arguments : List Argument

-- The JSON of requests and responses.
pub record TransactionJson (E : Type 0) : Type 0 where
  pub decode : Text → Result JsonRequest
  pub job : Jobs.JsonResponse → Text
  pub transaction : JsonResponse E → Text
  pub transactions : List (JsonResponse E) → Text
  pub signed : SignedTransactionJsonResponse → Text
  pub cadence : Text → Text

abbrev pub undecoded_signed : GoError
undecoded_signed = request_error 500 (plain (bytes "cannot decode signed transaction"))

module _ {W A E : Type 0} (service : TransactionService W A E) (json : TransactionJson E) where
  job_text : Job → Text
  job_text j = json.job (Jobs.to_json_response j)

  transaction_text : Transaction E → Text
  transaction_text t = json.transaction (to_json_response t)

  -- ListFunc, for an account or for all.
  transactions_of : Option Text → ℤ → ℤ → W → Result (List (Transaction E)) × W
  transactions_of (some address) = service.list_for_account general address
  transactions_of none = service.list

  -- ListFunc
  pub list_func : Atoi → HttpRequest → W → Writer → Writer × W
  list_func atoi r w =
      respond 200 (λ ts. json.transactions (map to_json_response ts))
        (transactions_of (r.vars (bytes "address")) (or_zero (atoi (r.form_value (bytes "limit"))))
          (or_zero (atoi (r.form_value (bytes "offset")))) w)

  -- CreateFunc: none is a panic.
  unfoldable pub create_func : HttpRequest → W → Writer → Option (Writer × W)
  unfolding job_text transaction_text
  create_func r w rw =
      with_body json.decode r (refuse_some rw)
        (λ b w.
          respond_created (is_sync r) job_text transaction_text
            (service.create (is_sync r) (var r (bytes "address")) b.code b.arguments general w) rw)
        w

  module _ (sdk : Sdk A) (sprintf_x : List ℕ → Text) where
    -- The end of SignFunc.
    answer_signed : Result (SignedTransaction A) × W → Writer → Writer × W
    answer_signed (err e, w) rw = (write_error e rw, w)
    answer_signed (ok tx, w) rw = elim (signed_json_response sdk sprintf_x tx) [
      | err e ↦ (write_error undecoded_signed rw, w)
      | ok resp ↦ (write 201 (json.signed resp) rw, w)
    ]

    -- SignFunc. The text of the error for a body that Decode refuses, which ends in the error's fields, is
    -- the parameter `invalid_body`.
    unfoldable pub sign_func : (GoError → GoError) → HttpRequest → W → Writer → Writer × W
    unfolding answer_signed
    sign_func invalid_body r w rw = elim r.request_body [
      | none ↦ refuse_with rw empty_body_error w
      | some body ↦ elim (json.decode body) [
        | err e ↦ refuse_with rw (request_error 400 (invalid_body e)) w
        | ok b ↦ answer_signed (service.sign (var r (bytes "address")) b.code b.arguments w) rw
      ]
    ]

  -- DetailsFunc, for an account or for all.
  transaction_of : Option Text → Text → W → Result (Transaction E) × W
  transaction_of (some address) = service.details_for_account general address
  transaction_of none = service.details

  -- DetailsFunc
  pub details_func : HttpRequest → W → Writer → Writer × W
  details_func r w =
      respond 200 transaction_text
        (transaction_of (r.vars (bytes "address")) (var r (bytes "transactionId")) w)

  -- ExecuteScriptFunc
  unfoldable pub execute_script_func : HttpRequest → W → Writer → Writer × W
  execute_script_func r w rw =
      with_body json.decode r (refuse_with rw)
        (λ b w. respond 200 json.cadence (service.execute_script b.code b.arguments w) rw) w
