-- ===== src/Transactions.antt =====
-- transactions/: the service that builds, sends and looks up transactions, and its job executor. The key
-- manager, the store, the Flow client and the SDK are parameters.
pub mod Types
mod Parts
pub use Parts.*
pub mod Sending
pub mod Lookup
pub mod Sync
pub mod Sql
pub mod Signed
pub mod Tests
use flow_wallet_api.Prelude.{
  ℕ, ◌≡◌, Bool, true, false, not, ◌&&◌, Option, none, some, List, [], ◌∷◌, Text, bytes, text_eq,
  ◌==◌, if◌then◌else◌, ℤ,
}
use flow_wallet_api.Errors.{
  Code, not_found, GoError, plain, rpc_error, request_error, invalid_job_type, wrap_after,
  error_text, code_eq, Result, ok, err,
}
use flow_wallet_api.Datastore.{ListOptions, parse_list_options}
use flow_wallet_api.FlowHelpers.{
  Sdk, validate_address, validate_transaction_id, TransactionResult, Client, Waited, wait_for_seal,
}
use flow_wallet_api.Jobs.Types.{Job, OnJob}
use flow_wallet_api.Jobs.Pool.{WorkerPool, PoolState, create_job, schedule, register_executor}
use flow_wallet_api.Transactions.Types.{
  TransactionType, unknown, Transaction, no_transaction, Argument, JsonCodec, arg_as_cadence,
}

abbrev max_gas_limit : ℕ
max_gas_limit = 9999

abbrev pub transaction_job_type : Text
transaction_job_type = bytes "transaction"

-- The gRPC code that sendTransaction waits for.
abbrev pub is_unknown_transaction : GoError → Bool
is_unknown_transaction (rpc_error c t) = code_eq c not_found
is_unknown_transaction _ = false

abbrev pub transaction_not_found : GoError
transaction_not_found = request_error 404 (plain (bytes "transaction not found"))

module _ {W A Tx E : Type 0} (svc : Service W A Tx E) where
  open svc use {store, km, fc, wp, sdk, builder, codec, patience, admin_address, take}

  -- getProposalAuthorizer
  get_proposal_authorizer : Text → W → Result (Authorizer A) × W
  get_proposal_authorizer proposer_address w = elim (validate_address sdk proposer_address) [
    | err e ↦ (err e, w)
    | ok address ↦
        if text_eq address admin_address
        then (let (r, w') = km.admin_proposal_key w in
            elim r [
              | err e ↦ (err (wrap_after (bytes "error while getting admin authorizer: ") e), w')
              | ok a ↦ (ok a, w')
            ])
        else (let (r, w') = km.user_authorizer (sdk.hex_to_address address) w in
            elim r [
              | err e ↦ (err (wrap_after (bytes "error while getting user authorizer: ") e), w')
              | ok a ↦ (ok a, w')
            ])
  ]

  -- The loop over the arguments in buildFlowTransaction.
  add_arguments : List Argument → Tx → Result Tx
  add_arguments [] tx = ok tx
  add_arguments (a ∷ more) tx = elim (arg_as_cadence codec a) [
    | err e ↦ err e
    | ok v ↦ elim (builder.add_argument v tx) [ err e ↦ err e | ok tx' ↦ add_arguments more tx' ]
  ]

  -- Authorizer.Equals
  same_authorizer : Authorizer A → Authorizer A → Bool
  same_authorizer a b =
      text_eq (sdk.address_hex a.address) (sdk.address_hex b.address)
      && (a.key_index == b.key_index)

  -- The end of buildFlowTransaction: authorizer and signatures.
  sign : Authorizer A → Authorizer A → Tx → Result Tx
  sign proposer payer tx =
      let tx' = builder.add_authorizer proposer.address tx in
      let signed =
        if same_authorizer proposer payer then ok tx' else builder.sign_payload proposer tx' in
      elim signed [ err e ↦ err e | ok tx'' ↦ builder.sign_envelope payer tx'' ]

  -- buildFlowTransaction, once block, payer and proposer are known.
  assemble : Text → Authorizer A → Authorizer A → Text → List Argument → Result Tx
  assemble block payer proposer code arguments =
      elim (add_arguments arguments
        (builder.draft block proposer payer.address max_gas_limit code)) [
          | err e ↦ err e
          | ok tx ↦ sign proposer payer tx
        ]

  -- buildFlowTransaction
  build_flow_transaction : Text → Text → List Argument → W → Result Tx × W
  build_flow_transaction proposer_address code arguments w =
      let (block, w₁) = fc.latest_block_id w in
      elim block [
        | err e ↦ (err e, w₁)
        | ok b ↦
            let (payer, w₂) = km.admin_authorizer w₁ in
            elim payer [
              | err e ↦ (
                err (wrap_after (bytes "error while getting admin authorizer for payer: ") e),
                w₂,
              )
              | ok p ↦
                  let (proposer, w₃) = get_proposal_authorizer proposer_address w₂ in
                  elim proposer [ err e ↦ (err e, w₃) | ok q ↦ (assemble b p q code arguments, w₃) ]
            ]
      ]

  -- Sign
  pub sign_transaction : Text → Text → List Argument → W → Result Tx × W
  sign_transaction = build_flow_transaction

  -- newTransaction
  pub new_transaction :
      Text → Text → List Argument → TransactionType → W → Result (Transaction E) × W
  new_transaction proposer_address code arguments t_type w =
      let (r, w') = build_flow_transaction proposer_address code arguments w in
      elim r [
        | err e ↦ (err (wrap_after (bytes "error while building transaction: ") e), w')
        | ok tx ↦ (
          ok (record no_transaction {
            proposer_address = proposer_address;
            transaction_type = t_type;
            transaction_id = builder.tx_id tx;
            flow_transaction = builder.encode tx;
          }),
          w',
        )
      ]

  -- What sendTransaction makes of SendAndWait's result. Without an error there is a result.
  after_wait : Transaction E → Waited E → Option GoError × Transaction E
  after_wait t (r, some e) = (some e, t)
  after_wait t (none, none) = (none, t)
  after_wait t (some r, none) = (none, record t { events = r.events })

  -- The end of sendTransaction: the rate limiter and SendAndWait.
  send_now : Tx → Transaction E → W → Option GoError × Transaction E × W
  send_now tx t w =
      let (e, w') = fc.send_transaction tx (take w) in
      elim e [
        | some x ↦ (some x, t, w')
        | none ↦
            let id = builder.tx_id tx in
            let (x, t') = after_wait t (patience.answers id w').0 in
            (x, t', (wait_for_seal fc (patience.rounds id w') id w').1)
      ]

  -- sendTransaction
  pub send_transaction : Transaction E → W → Option GoError × Transaction E × W
  send_transaction t w = elim (builder.decode t.flow_transaction) [
    | err e ↦ (some e, t, w)
    | ok tx ↦
        let (known, w') = fc.get_transaction (builder.tx_id tx) w in
        elim known [
          | none ↦ send_now tx t w'
          | some e ↦ if not (is_unknown_transaction e) then (some e, t, w') else send_now tx t w'
        ]
  ]

  -- executeTransactionJob
  pub execute_transaction_job : OnJob W
  execute_transaction_job j w =
      if not (text_eq j.job_type transaction_job_type)
      then (some invalid_job_type, j, w)
      else (let j' = record j { should_send_notification = true } in
          let (r, w') = store.transaction j.transaction_id w in
          elim r [
            | err e ↦ (some e, j', w')
            | ok t ↦ let (e, t', w'') = send_transaction t w' in (e, j', w'')
          ])

  -- The pool that NewService leaves behind.
  abbrev pub registered_pool : WorkerPool W
  registered_pool = register_executor transaction_job_type execute_transaction_job wp

  -- The asynchronous half of Create.
  create_async : Transaction E → PoolState W → Result (Option Job × Transaction E) × PoolState W
  create_async t st =
      let (r, w) = create_job wp transaction_job_type t.transaction_id [] st.world in
      let st' = record st { world = w } in
      elim r [
        | err e ↦ (err (wrap_after (bytes "error while creating job: ") e), st')
        | ok job ↦
            let (e, job', st'') = schedule wp job st' in
            elim e [
              | some x ↦ (err (wrap_after (bytes "error while scheduling job: ") x), st'')
              | none ↦ (ok (some job', t), st'')
            ]
      ]

  -- The synchronous half.
  create_sync : Transaction E → PoolState W → Result (Option Job × Transaction E) × PoolState W
  create_sync t st =
      let (e, t', w) = send_transaction t st.world in
      let st' = record st { world = w } in
      elim e [ some x ↦ (err x, st') | none ↦ (ok (none, t'), st') ]

  -- Create, once the transaction is built.
  insert_and_send :
      Bool → Transaction E → PoolState W → Result (Option Job × Transaction E) × PoolState W
  insert_and_send sync t st =
      let (e, w) = store.insert_transaction t st.world in
      let st' = record st { world = w } in
      elim e [
        | some x ↦ (err (wrap_after (bytes "error while inserting transaction in db: ") x), st')
        | none ↦ if not sync then create_async t st' else create_sync t st'
      ]

  -- Create
  pub create :
      Bool
      → Text
      → Text
      → List Argument
      → TransactionType
      → PoolState W
      → Result (Option Job × Transaction E) × PoolState W
  create sync proposer_address code arguments t_type st =
      let (r, w) = new_transaction proposer_address code arguments t_type st.world in
      let st' = record st { world = w } in
      elim r [
        | err e ↦ (err (wrap_after (bytes "error while getting new transaction: ") e), st')
        | ok t ↦ insert_and_send sync t st'
      ]

  -- List
  unfoldable pub list : ℤ → ℤ → W → Result (List (Transaction E)) × W
  list limit offset = store.transactions (parse_list_options limit offset)

  -- ListForAccount
  unfoldable pub list_for_account :
      TransactionType → Text → ℤ → ℤ → W → Result (List (Transaction E)) × W
  list_for_account t_type address limit offset w = elim (validate_address sdk address) [
    | err e ↦ (err e, w)
    | ok a ↦ store.transactions_for_account t_type a (parse_list_options limit offset) w
  ]

  with_events : Transaction E → Result (TransactionResult E) → W → Result (Transaction E) × W
  with_events t (err e) w = (err e, w)
  with_events t (ok result) w = (ok (record t { events = result.events }), w)

  -- The end of Details and of DetailsForAccount. An error of the store other than "record not found"
  -- is dropped: the code goes on with the zero value.
  with_result : Text → Result (Transaction E) → W → Result (Transaction E) × W
  with_result id found w =
      let (r, w') = fc.get_transaction_result id w in
      elim found [
        | ok t ↦ with_events t r w'
        | err e ↦
            if text_eq (error_text e) (bytes "record not found")
            then (err transaction_not_found, w)
            else with_events no_transaction r w'
      ]

  -- Details
  pub details : Text → W → Result (Transaction E) × W
  details id w = elim (validate_transaction_id sdk id) [
    | some e ↦ (err e, w)
    | none ↦ let (found, w') = store.transaction id w in with_result id found w'
  ]

  -- DetailsForAccount
  pub details_for_account : TransactionType → Text → Text → W → Result (Transaction E) × W
  details_for_account t_type address id w = elim (validate_address sdk address) [
    | err e ↦ (err e, w)
    | ok a ↦ elim (validate_transaction_id sdk id) [
      | some e ↦ (err e, w)
      | none ↦
          let (found, w') = store.transaction_for_account t_type a id w in with_result id found w'
    ]
  ]
