-- ===== src/Handlers/Tests.antt =====
-- Examples for the handlers: services whose world counts their calls, and requests without a body or with an index
-- that is no number.
use flow_wallet_api.Prelude.{
  ℕ, suc, ◌≡◌, refl, Option, none, some, List, [], Text, bytes, pos, length, ◌==◌, if◌then◌else◌,
  text_eq,
}
use flow_wallet_api.Errors.{GoError, plain, error_text, Result, ok, err}
use flow_wallet_api.Jobs.Types.{Job, JsonResponse, to_json_response}
use flow_wallet_api.Jobs.Store.{gorm_store}
use flow_wallet_api.Jobs.Store.Memory.{memory, some_job, holding}
use flow_wallet_api.Jobs.Service.{zero_job}
use flow_wallet_api.Transactions.Tests.{Account, sdk}
use flow_wallet_api.Accounts.Types.{no_account}
use flow_wallet_api.Handlers.{handle_error}
use flow_wallet_api.Handlers.Settings.{empty_body_error}
use flow_wallet_api.Handlers.Writing.{no_answer, HttpRequest, var, Atoi}
use flow_wallet_api.Handlers.Bodies.{missing, refused_with, bodies_refused}
use flow_wallet_api.Handlers.Accounts.{
  AccountService, AccountJson, add_non_custodial_account_func, sync_account_key_count_func,
  revoke_key_func,
}
use flow_wallet_api.Handlers.Accounts.Errors.{revoke_key_func_unparsed}
use flow_wallet_api.Handlers.Tokens.{TokenService, TokenJson, create_withdrawal_func}
use flow_wallet_api.Handlers.Transactions.{
  TransactionService, TransactionJson, create_func, execute_script_func,
}
use flow_wallet_api.Handlers.Templates.{TemplateService, TemplateJson, add_token_func}
use flow_wallet_api.Handlers.Jobs.{details_func}
use flow_wallet_api.Handlers.Jobs.Details.{job_service, answer, details_func_lem}

abbrev refusal : GoError
refusal = plain (bytes "refused")

abbrev refuse : {X : Type 0} → ℕ → Result X × ℕ
refuse w = (err refusal, suc w)

abbrev accounts : AccountService ℕ Account
accounts = record {
  list = λ limit offset. refuse;
  create = λ sync. refuse;
  add_non_custodial_account = λ address. refuse;
  delete_non_custodial_account = λ address w. (some refusal, suc w);
  sync_account_key_count = λ address. refuse;
  details = λ address. refuse;
  add_new_key = λ address. refuse;
  revoke_key = λ address index w. (ok zero_job, suc w);
  get_keys_by_type = λ key_type. refuse;
}

abbrev account_json : AccountJson Account
account_json = record {
  decode_account = λ body. ok no_account;
  decode_sync = λ body. err refusal;
  accounts = λ a. bytes "[]";
  account = λ a. bytes "null";
  job_response = λ j. bytes "{}";
  job = λ j. bytes "{}";
  keys = λ k. bytes "[]";
}

abbrev tokens : TokenService ℕ ℕ
tokens = record {
  setup = λ sync name address. refuse;
  account_tokens = λ address t. refuse;
  details = λ name address. refuse;
  create_withdrawal = λ sync address b. refuse;
  list_withdrawals = λ address name. refuse;
  list_deposits = λ address name. refuse;
  get_withdrawal = λ address name id. refuse;
  get_deposit = λ address name id. refuse;
}

abbrev token_json : TokenJson ℕ
token_json = record {
  decode = λ body. err refusal;
  job = λ j. [];
  transaction = λ t. [];
  tokens = λ t. [];
  details = λ d. [];
  withdrawals = λ t. [];
  withdrawal = λ t. [];
  deposits = λ t. [];
  deposit = λ t. [];
}

abbrev transactions : TransactionService ℕ Account ℕ
transactions = record {
  create = λ sync address code args t. refuse;
  sign = λ address code args. refuse;
  list = λ limit offset. refuse;
  list_for_account = λ t address limit offset. refuse;
  details = λ id. refuse;
  details_for_account = λ t address id. refuse;
  execute_script = λ code args. refuse;
}

abbrev transaction_json : TransactionJson ℕ
transaction_json = record {
  decode = λ body. err refusal;
  job = λ j. [];
  transaction = λ t. [];
  transactions = λ t. [];
  signed = λ t. [];
  cadence = λ t. t;
}

abbrev templates : TemplateService ℕ
templates = record {
  add_token = λ t w. (none, t, suc w);
  list_tokens = λ t. refuse;
  get_token_by_id = λ id. refuse;
  get_token_by_name = λ name. refuse;
  remove_token = λ id w. (none, suc w);
}

abbrev template_json : TemplateJson
template_json = record {
  decode = λ body. err refusal;
  token = λ t. [];
  tokens = λ t. [];
  number = λ n. [];
  parse_uint = λ t. err refusal;
}

-- Every text is no number.
abbrev atoi : Atoi
atoi t = (pos 0, some refusal)

abbrev request : Option Text → HttpRequest
request body = record {
  vars = λ name. some (bytes "a");
  form_value = λ name. [];
  request_body = body;
}

bodies_refused_example :
    (add_non_custodial_account_func accounts account_json sdk atoi (request none) 0 no_answer
      ≡ (refused_with empty_body_error, 0))
    × (sync_account_key_count_func accounts account_json sdk atoi (request none) 0 no_answer
        ≡ (refused_with empty_body_error, 0))
    × (create_withdrawal_func tokens token_json (request none) 0 no_answer
        ≡ some (refused_with empty_body_error, 0))
    × (create_func transactions transaction_json (request none) 0 no_answer
        ≡ some (refused_with empty_body_error, 0))
    × (execute_script_func transactions transaction_json (request none) 0 no_answer
        ≡ (refused_with empty_body_error, 0))
    × (add_token_func templates template_json (request none) 0 no_answer
        ≡ (refused_with empty_body_error, 0))
bodies_refused_example =
    bodies_refused accounts account_json sdk atoi tokens token_json transactions transaction_json
      templates template_json (request none) 0 empty_body_error (missing refl) (missing refl)
      (missing refl) (missing refl) (missing refl)

-- The service is called: the world counts it.
revoke_key_func_unparsed_example :
    ((revoke_key_func accounts account_json sdk atoi (request none) 0 no_answer).0.header
      ≡ some (handle_error refusal).status)
    × ((revoke_key_func accounts account_json sdk atoi (request none) 0 no_answer).1 ≡ 1)
revoke_key_func_unparsed_example =
    revoke_key_func_unparsed accounts account_json sdk atoi (request none) 0 (pos 0) refusal refl

abbrev parse : Text → Option ℕ
parse t = if length t == 0 then none else some (length t)

abbrev encode : JsonResponse → Text
encode j = j.job_type

abbrev encode_list : List JsonResponse → Text
encode_list js = []

details_func_lem_example :
    (parse (var (request none) (bytes "jobId")) ≡ none
      → details_func
          (job_service (gorm_store memory) parse)
          encode
          encode_list
          (request none)
          (holding some_job)
          no_answer
        ≡ (answer 400 (bytes "invalid job id"), (holding some_job)))
    × ((id : ℕ) (j : Job)
        → parse (var (request none) (bytes "jobId")) ≡ some id
        → (gorm_store memory).job id (holding some_job) ≡ (ok j, (holding some_job))
        → details_func
            (job_service (gorm_store memory) parse)
            encode
            encode_list
            (request none)
            (holding some_job)
            no_answer
          ≡ (answer 200 (encode (to_json_response j)), (holding some_job)))
    × ((id : ℕ) (e : GoError)
        → parse (var (request none) (bytes "jobId")) ≡ some id
        → (gorm_store memory).job id (holding some_job) ≡ (err e, (holding some_job))
        → details_func
            (job_service (gorm_store memory) parse)
            encode
            encode_list
            (request none)
            (holding some_job)
            no_answer
          ≡ (
            if text_eq (error_text e) (bytes "record not found")
                then answer 404 (bytes "job not found")
                else answer 200 (encode (to_json_response zero_job)),
            (holding some_job),
          ))
details_func_lem_example =
    details_func_lem (gorm_store memory) parse encode encode_list (request none) (holding some_job)
      (holding some_job)
