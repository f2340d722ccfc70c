-- ===== src/Handlers/Bodies.antt =====
-- The bodies of requests: what the handlers do with one that is missing or not JSON (handlers/).
use flow_wallet_api.Prelude.{◌≡◌, refl, none, some, Text}
use flow_wallet_api.Errors.{GoError, error_text, Result, ok, err}
use flow_wallet_api.FlowHelpers.{Sdk}
use flow_wallet_api.Handlers.{handle_error}
use flow_wallet_api.Handlers.Settings.{empty_body_error, invalid_body_error}
use flow_wallet_api.Handlers.Writing.{
  Writer, no_answer, write, write_error, HttpRequest, Atoi, with_body,
}
use flow_wallet_api.Handlers.Accounts.{
  AccountService, AccountJson, add_non_custodial_account_func, sync_account_key_count_func,
}
use flow_wallet_api.Handlers.Tokens.{TokenService, TokenJson, create_withdrawal_func}
use flow_wallet_api.Handlers.Transactions.{
  TransactionService, TransactionJson, create_func, execute_script_func,
}
use flow_wallet_api.Handlers.Templates.{TemplateService, TemplateJson, add_token_func}

-- The request has no body, or one that is not decoded; the index is the error for it.
pub data Unreadable {X : Type 0} (decode : Text → Result X) (r : HttpRequest)
    : GoError → Type 0 where
  missing : r.request_body ≡ none → Unreadable decode r empty_body_error
  undecoded :
      {body : Text} {e : GoError}
      → r.request_body ≡ some body
      → decode body ≡ err e
      → Unreadable decode r invalid_body_error

-- The answer 400 with the error's text.
pub refused_with : GoError → Writer
refused_with e = record { header = some 400; content = error_text e }

module _ {W X Y : Type 0} (decode : Text → Result X) (r : HttpRequest) (refuse : GoError → W → Y)
    (k : X → W → Y) (w : W) where
  pub with_body_read :
      {body : Text} {x : X}
      → r.request_body ≡ some body
      → decode body ≡ ok x
      → with_body decode r refuse k w ≡ k x w
  unfolding with_body
  with_body_read there decoded = rw (there, with_body) (rw decoded refl)

  with_body_refused :
      {e : GoError} → Unreadable decode r e → with_body decode r refuse k w ≡ refuse e w
  unfolding with_body
  with_body_refused (missing absent) = rw (absent, with_body) refl
  with_body_refused (undecoded there refused) = rw (there, with_body) (rw refused refl)

-- handleError answers 400 for both errors.
write_error-Unreadable :
    {X : Type 0} {decode : Text → Result X} {r : HttpRequest} {e : GoError}
    → Unreadable decode r e
    → write_error e no_answer ≡ refused_with e
unfolding write_error write handle_error refused_with error_text
write_error-Unreadable (missing absent) = refl
write_error-Unreadable (undecoded there refused) = refl

module _ {W A E : Type 0} (accounts : AccountService W A) (account_json : AccountJson A)
    (sdk : Sdk A) (atoi : Atoi) (tokens : TokenService W E) (token_json : TokenJson E)
    (transactions : TransactionService W A E) (transaction_json : TransactionJson E)
    (templates : TemplateService W) (template_json : TemplateJson) where
  -- The six handlers AddNonCustodialAccount, SyncAccountKeyCount, CreateWithdrawal, Create and
  -- ExecuteScript of transactions, and AddToken answer 400 with the error's text to a request
  -- without a body or with one that no decoder accepts, call no service, and do not panic.
  pub bodies_refused :
      (r : HttpRequest) (w : W) (e : GoError)
      → Unreadable account_json.decode_account r e
      → Unreadable account_json.decode_sync r e
      → Unreadable token_json.decode r e
      → Unreadable transaction_json.decode r e
      → Unreadable template_json.decode r e
      → (add_non_custodial_account_func accounts account_json sdk atoi r w no_answer
          ≡ (refused_with e, w))
        × (sync_account_key_count_func accounts account_json sdk atoi r w no_answer
            ≡ (refused_with e, w))
        × (create_withdrawal_func tokens token_json r w no_answer ≡ some (refused_with e, w))
        × (create_func transactions transaction_json r w no_answer ≡ some (refused_with e, w))
        × (execute_script_func transactions transaction_json r w no_answer ≡ (refused_with e, w))
        × (add_token_func templates template_json r w no_answer ≡ (refused_with e, w))
  unfolding add_non_custodial_account_func sync_account_key_count_func create_withdrawal_func
      create_func execute_script_func add_token_func
  bodies_refused r w e account sync withdrawal request token =
      rw⁻¹ (write_error-Unreadable account) (
        with_body_refused account_json.decode_account r _ _ w account,
        with_body_refused account_json.decode_sync r _ _ w sync,
        with_body_refused token_json.decode r _ _ w withdrawal,
        with_body_refused transaction_json.decode r _ _ w request,
        with_body_refused transaction_json.decode r _ _ w request,
        with_body_refused template_json.decode r _ _ w token,
      )
