-- ===== src/Handlers/Accounts.antt =====
-- handlers/accounts.go and handlers/accounts_func.go: the HTTP handlers for accounts.
pub mod Errors
use flow_wallet_api.Prelude.{
  ℕ, ◌+◌, ◌%◌, ◌^◌, ◌-◌, suc, Option, none, some, List, Text, bytes, ℤ, pos, negsuc, Bool, true,
  false,
}
use flow_wallet_api.Errors.{GoError, Result, ok, err}
use flow_wallet_api.FlowHelpers.{Sdk}
use flow_wallet_api.Jobs.Types.{Job, JsonResponse, to_json_response}
use flow_wallet_api.Keys.Types.{Storable}
use flow_wallet_api.Accounts.Types.{Account}
use flow_wallet_api.Handlers.Writing.{
  Writer, write, write_header, write_error, HttpRequest, var, is_sync, Atoi, or_zero, respond,
  with_body, refuse_with,
}

-- The interface accounts.Service, as the handlers call it.
pub record AccountService (W A : Type 0) : Type 0 where
  pub list : ℤ → ℤ → W → Result (List Account) × W
  pub create : Bool → W → Result (Option Job × Option Account) × W
  pub add_non_custodial_account : Text → W → Result Account × W
  pub delete_non_custodial_account : Text → W → Option GoError × W
  pub sync_account_key_count : A → W → Result Job × W
  pub details : Text → W → Result Account × W
  pub add_new_key : A → W → Result Job × W
  pub revoke_key : A → ℕ → W → Result Job × W
  pub get_keys_by_type : Text → W → Result (List Storable) × W

-- The JSON of requests and responses; `account` is also given a nil pointer.
pub record AccountJson (A : Type 0) : Type 0 where
  pub decode_account : Text → Result Account
  pub decode_sync : Text → Result A
  pub accounts : List Account → Text
  pub account : Option Account → Text
  pub job_response : JsonResponse → Text
  pub job : Job → Text
  pub keys : List Storable → Text

-- The conversion of an int to uint32.
unfoldable pub to_uint32 : ℤ → ℕ
to_uint32 (pos n) = n % 2 ^ 32
to_uint32 (negsuc n) = 2 ^ 32 - (1 + n % 2 ^ 32)

module _ {W A : Type 0} (service : AccountService W A) (json : AccountJson A) (sdk : Sdk A)
    (atoi : Atoi) where
  -- ListFunc
  pub list_func : HttpRequest → W → Writer → Writer × W
  list_func r w = respond 200 json.accounts (
      service.list (or_zero (atoi (r.form_value (bytes "limit"))))
        (or_zero (atoi (r.form_value (bytes "offset")))) w)

  -- The response of CreateFunc: the account, which may be nil, or the job.
  created_account : Bool → Option Job × Option Account → Option Text
  created_account true (j, a) = some (json.account a)
  created_account false (none, a) = none
  created_account false (some j, a) = some (json.job_response (to_json_response j))

  -- CreateFunc: none is a panic.
  pub create_func : HttpRequest → W → Writer → Option (Writer × W)
  create_func r w rw =
      let (made, w') = service.create (is_sync r) w in
      elim made [
        | err e ↦ some (write_error e rw, w')
        | ok m ↦ elim (created_account (is_sync r) m) [
          | none ↦ none
          | some text ↦ some (write 201 text rw, w')
        ]
      ]

  -- DetailsFunc
  pub details_func : HttpRequest → W → Writer → Writer × W
  details_func r w =
      respond 200 (λ a. json.account (some a)) (service.details (var r (bytes "address")) w)

  -- The end of AddNonCustodialAccountFunc, which does not return after handleError: the account is nil.
  unfoldable pub add_account : Result Account × W → Writer → Writer × W
  add_account (ok a, w) rw = (write 201 (json.account (some a)) rw, w)
  add_account (err e, w) rw = (write 201 (json.account none) (write_error e rw), w)

  -- AddNonCustodialAccountFunc
  unfoldable pub add_non_custodial_account_func : HttpRequest → W → Writer → Writer × W
  add_non_custodial_account_func r w rw =
      with_body json.decode_account r (refuse_with rw)
        (λ b w. add_account (service.add_non_custodial_account b.address w) rw) w

  -- DeleteNonCustodialAccountFunc
  pub delete_non_custodial_account_func : HttpRequest → W → Writer → Writer × W
  delete_non_custodial_account_func r w rw =
      let (e, w') = service.delete_non_custodial_account (var r (bytes "address")) w in
      elim e [ some x ↦ (write_error x rw, w') | none ↦ (write_header 200 rw, w') ]

  -- SyncAccountKeyCountFunc
  unfoldable pub sync_account_key_count_func : HttpRequest → W → Writer → Writer × W
  sync_account_key_count_func r w rw =
      with_body json.decode_sync r (refuse_with rw)
        (λ address w. respond 200 json.job (service.sync_account_key_count address w) rw) w

  -- AddNewKeyFunc
  pub add_new_key_func : HttpRequest → W → Writer → Writer × W
  add_new_key_func r w =
      respond 201 json.job (service.add_new_key (sdk.hex_to_address (var r (bytes "address"))) w)

  -- The first test of RevokeKeyFunc, which does not return after handleError.
  unfoldable pub note_error : Option GoError → Writer → Writer
  note_error none rw = rw
  note_error (some e) rw = write_error e rw

  -- RevokeKeyFunc
  unfoldable pub revoke_key_func : HttpRequest → W → Writer → Writer × W
  revoke_key_func r w rw =
      let (index, e) = atoi (var r (bytes "index")) in
      respond 200 json.job
        (service.revoke_key (sdk.hex_to_address (var r (bytes "address"))) (to_uint32 index) w)
        (note_error e rw)

  -- GetKeysByTypeFunc
  pub get_keys_by_type_func : HttpRequest → W → Writer → Writer × W
  get_keys_by_type_func r w =
      respond 200 json.keys (service.get_keys_by_type (var r (bytes "type")) w)
