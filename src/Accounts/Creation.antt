-- ===== src/Accounts/Creation.antt =====
-- createAccount, Create and executeAccountCreateJob (accounts/service.go, accounts/jobs.go).
pub mod Stored
pub mod Tests
use flow_wallet_api.Prelude.{
  ℕ, suc, zero, ◌+◌, ◌%◌, ◌^◌, Bool, true, not, Option, none, some, List, [], ◌∷◌, Text, bytes,
  text_eq, ◌==◌, ◌&&◌, if◌then◌else◌,
}
use flow_wallet_api.Errors.{GoError, plain, invalid_job_type, Result, ok, err}
use flow_wallet_api.Call.{
  Run, returned, failed, panicked, Call, pure, throw, lift, try, deref, fail_if, on_return, check,
  modify, of_result, of_error, and_then, ◌>>=◌, ◌>>◌,
}
use flow_wallet_api.FlowHelpers.{format_address, TransactionResult, Waited, wait_for_seal}
use flow_wallet_api.Jobs.Types.{Job}
use flow_wallet_api.Jobs.Pool.{PoolState}
use flow_wallet_api.Transactions.{Authorizer}
use flow_wallet_api.Keys.Types.{Storable, Private, AccountKey}
use flow_wallet_api.Accounts.Types.{
  Account, no_account, ServiceImpl, account_type_custodial, trigger,
}
use flow_wallet_api.Accounts.Service.{account_create_job_type, schedule_new}

abbrev pub max_gas_limit : ℕ
max_gas_limit = 9999

abbrev pub no_address : GoError
no_address = plain (bytes "something went wrong when waiting for address")

-- The loop that copies the generated key; `uint32` is the conversion of the configured count.
abbrev pub clones_from : ℕ → ℕ → AccountKey → List AccountKey
clones_from i zero key = []
clones_from i (suc n) key = (record key { index = i }) ∷ clones_from (suc i) n key

abbrev pub uint32 : ℕ → ℕ
uint32 n = n % 2 ^ 32

-- The loop that copies the storable key, with the indices of the on-chain keys.
abbrev pub storable_clones : Storable → List AccountKey → List Storable
storable_clones key [] = []
storable_clones key (k ∷ ks) = (record key { index = k.index }) ∷ storable_clones key ks

module _ {W A Tx E : Type 0} (svc : ServiceImpl W A Tx E) where
  open svc use {cfg, store, km, fc, patience, take, sdk, builder, handlers, read_file}

  abbrev pub public_keys : AccountKey → List AccountKey
  public_keys key = clones_from 0 (uint32 cfg.default_account_key_count) key

  -- The loop over the events; the zero address if none of them tells of a new account.
  abbrev new_address : List E → A
  new_address [] = builder.empty_address
  new_address (event ∷ events) = elim (builder.event_address event) [
    | some a ↦ a
    | none ↦ new_address events
  ]

  -- The end of SendAndWait, and the result's dereference.
  abbrev pub await : Text → Call W (TransactionResult E)
  await id w =
      let w' = (wait_for_seal fc (patience.rounds id w) id w).1 in
      elim (patience.answers id w).0.1 [
        | some e ↦ failed e w'
        | none ↦ elim (patience.answers id w).0.0 [ some r ↦ returned r w' | none ↦ panicked w' ]
      ]

  -- SendAndWait
  pub send_and_await : Tx → Call W (TransactionResult E)
  send_and_await tx = do check (fc.send_transaction tx); await (builder.tx_id tx)

  -- The custom script, the proposer's and the payer's signature.
  abbrev pub scripted : Tx → Call W Tx
  scripted tx = if text_eq cfg.script_path_create_account [] then pure tx else do
    script ← lift (read_file cfg.script_path_create_account)
    pure (builder.set_script script tx)

  -- Authorizer.Equals
  abbrev pub same_authorizer : Authorizer A → Authorizer A → Bool
  same_authorizer a b =
      text_eq (sdk.address_hex a.address) (sdk.address_hex b.address)
      && (a.key_index == b.key_index)

  abbrev pub sign_both : Authorizer A → Authorizer A → Tx → Result Tx
  sign_both proposer payer tx =
      elim (if not (same_authorizer proposer payer)
        then builder.sign_payload proposer tx
        else ok tx) [ err e ↦ err e | ok signed ↦ builder.sign_envelope payer signed ]

  -- The account that is inserted.
  abbrev pub account_with : A → Storable → AccountKey → Account
  account_with address encrypted key = record no_account {
    address = format_address sdk address;
    account_type = account_type_custodial;
    keys = storable_clones (record encrypted { public_key = key.public_key }) (public_keys key);
  }

  abbrev pub insert_account : Account → Call W Account
  insert_account a w =
      let (e, a', w') = store.insert_account a w in
      elim e [ none ↦ returned a' w' | some x ↦ failed x w' ]

  -- The end of createAccount: encrypt the key, store the account, and tell the handlers.
  pub store_account : A → AccountKey → Private → Call W Account
  store_account address key private = do
    encrypted ← lift (km.save private)
    account ← insert_account (account_with address encrypted key)
    modify (trigger handlers (sdk.hex_to_address account.address))
    pure account

  -- createAccount, once the transaction is there.
  pub send_creation :
      AccountKey → Private → Authorizer A → Authorizer A → Tx → Call W (Account × Text)
  send_creation key private proposer payer draft = do
    tx ← scripted draft
    signed ← try (sign_both proposer payer tx)
    result ← send_and_await signed
    let address = new_address result.events
    fail_if (builder.is_empty address) no_address
    account ← store_account address key private
    pure (account, builder.tx_id signed)

  -- createAccount, once the keys are there. Where the SDK refuses to build the transaction, the code returns
  -- `err`, which is nil, with a nil account: none.
  creation_of :
      AccountKey
      → Private
      → Authorizer A
      → Authorizer A
      → Text
      → Result Tx
      → Call W (Option (Account × Text))
  creation_of key private proposer payer block (err e) = pure none
  creation_of key private proposer payer block (ok tx) = do
    created ←
        send_creation key private proposer payer
          (builder.prepare block proposer payer.address max_gas_limit tx)
    pure (some created)

  -- createAccount
  pub create_account : Call W (Option (Account × Text))
  create_account = do
    modify take
    payer ← lift km.admin_authorizer
    proposer ← lift km.admin_proposal_key
    block ← lift fc.latest_block_id
    (key, private) ← lift km.generate_default
    creation_of key private proposer payer block
        (builder.create_account (public_keys key) payer.address)

  -- Create with sync set: the account, or the nil of createAccount.
  unfoldable pub create_sync_account : Call W (Option Account)
  unfolding create_account creation_of
  create_sync_account = do
    created ← create_account
    elim created [ none ↦ pure none | some c ↦ pure (some c.0) ]

  -- Create without sync.
  unfoldable pub create_account_job : Call (PoolState W) Job
  create_account_job = schedule_new svc account_create_job_type []

  created_or_panic : Call W (Account × Text)
  created_or_panic = do created ← create_account; deref created

  -- executeAccountCreateJob; the nil account is dereferenced.
  pub execute_account_create_job : Job → W → Job × Run W (Unit {0})
  execute_account_create_job j w =
      if not (text_eq j.job_type account_create_job_type)
      then (j, failed invalid_job_type w)
      else (let j' = record j { should_send_notification = true } in
          on_return j' (
            (do
              (account, id) ← created_or_panic
              pure (record j' { transaction_id = id; result = account.address }))
              w))
