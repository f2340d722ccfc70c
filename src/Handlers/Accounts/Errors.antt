-- ===== src/Handlers/Accounts/Errors.antt =====
-- The handlers for accounts that go on after an error (handlers/accounts_func.go).
use flow_wallet_api.Prelude.{ℕ, ◌≡◌, refl, none, some, Text, bytes, ◌++◌, ℤ, ◌∙◌}
use flow_wallet_api.Errors.{GoError, Result, ok, err}
use flow_wallet_api.FlowHelpers.{Sdk}
use flow_wallet_api.Accounts.Types.{Account}
use flow_wallet_api.Handlers.{handle_error}
use flow_wallet_api.Handlers.Writing.{
  no_answer, write, write_error, HttpRequest, var, Atoi, respond,
}
use flow_wallet_api.Handlers.Bodies.{with_body_read}
use flow_wallet_api.Handlers.Accounts.{
  AccountService, AccountJson, to_uint32, add_account, add_non_custodial_account_func, note_error,
  revoke_key_func,
}

-- A status that is written stays.
respond_header :
    {W X : Type 0} (status old : ℕ) (encode : X → Text) (r : Result X × W) (text : Text)
    → ((respond status encode r (record { header = some old; content = text })).0.header ≡ some old)
      × ((respond status encode r (record { header = some old; content = text })).1 ≡ r.1)
unfolding respond write write_error
respond_header status old encode (ok x, w) text = (refl, refl)
respond_header status old encode (err e, w) text = (refl, refl)

module _ {W A : Type 0} (service : AccountService W A) (json : AccountJson A) (sdk : Sdk A)
    (atoi : Atoi) where
  -- RevokeKeyFunc answers an index that is no number with the status of the error of Atoi, and yet
  -- calls RevokeKey, with the value that Atoi gives beside its error as a uint32: the world is then
  -- the one that this call leaves.
  pub revoke_key_func_unparsed :
      (r : HttpRequest) (w : W) (n : ℤ) (e : GoError)
      → atoi (var r (bytes "index")) ≡ (n, some e)
      → ((revoke_key_func service json sdk atoi r w no_answer).0.header
          ≡ some (handle_error e).status)
        × ((revoke_key_func service json sdk atoi r w no_answer).1
            ≡ (service.revoke_key (sdk.hex_to_address (var r (bytes "address"))) (to_uint32 n) w).1)
  unfolding revoke_key_func note_error write_error write
  revoke_key_func_unparsed r w n e h = rw h (
      respond_header 200 (handle_error e).status json.job
        (service.revoke_key (sdk.hex_to_address (var r (bytes "address"))) (to_uint32 n) w)
        (handle_error e).body)

  -- Where the service refuses an account, AddNonCustodialAccountFunc answers the error and appends a nil account.
  add_non_custodial_account_func_failed :
      (r : HttpRequest) (w w' : W) (body : Text) (b : Account) (e : GoError)
      → r.request_body ≡ some body
      → json.decode_account body ≡ ok b
      → service.add_non_custodial_account b.address w ≡ (err e, w')
      → add_non_custodial_account_func service json sdk atoi r w no_answer ≡ (
        record {
          header = some (handle_error e).status;
          content = (handle_error e).body ++ json.account none;
        },
        w',
      )
  unfolding add_non_custodial_account_func add_account write_error write
  add_non_custodial_account_func_failed r w w' body b e there decoded refused =
      with_body_read json.decode_account r _ _ w there decoded ∙ rw refused refl
