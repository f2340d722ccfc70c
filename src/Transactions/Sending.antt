-- ===== src/Transactions/Sending.antt =====
-- sendTransaction and executeTransactionJob (transactions/service.go, transactions/jobs.go).
use flow_wallet_api.Prelude.{
  ℕ, ◌≡◌, refl, ap, ◌⊎◌, inl, inr, true, false, none, some, List, arith, Text, text_eq, Bool-cases,
  Option-cases,
}
use flow_wallet_api.Errors.{invalid_job_type, ok, Result-cases}
use flow_wallet_api.FlowHelpers.{sealed, TransactionResult, Waited, wait_for_seal}
use flow_wallet_api.FlowHelpers.Waiting.{wait_for_seal_sealed, wait_for_seal_informs}
use flow_wallet_api.Jobs.Types.{Job}
use flow_wallet_api.Transactions.Types.{Transaction}
use flow_wallet_api.Transactions.{
  Service, transaction_job_type, is_unknown_transaction, after_wait, send_now, send_transaction,
  execute_transaction_job,
}

module _ {W A Tx E : Type 0} (svc : Service W A Tx E) where
  open svc use {store, fc, builder, patience, take}

  -- The encoded transaction decodes, the client has reported it as sealed and without an error, and the
  -- events are those of its result.
  pub IsSealed : Transaction E → List E → Type 0
  IsSealed t events =
      (tx : Tx) × (v : W) × (r : TransactionResult E) × (builder.decode t.flow_transaction ≡ ok tx)
      × ((fc.get_transaction_result (builder.tx_id tx) v).0 ≡ ok r)
      × (r.status ≡ sealed)
      × (r.error ≡ none)
      × (events ≡ r.events)

  after_wait_sealed :
      (t : Transaction E) (id : Text) (fuel : ℕ) (w : W) (a : Waited E)
      → (wait_for_seal fc fuel id w).0 ≡ some a
      → (after_wait svc t a).0 ≡ none
      → (v : W) × (r : TransactionResult E) × ((fc.get_transaction_result id v).0 ≡ ok r)
        × (r.status ≡ sealed)
        × (r.error ≡ none)
        × ((after_wait svc t a).1 ≡ record t { events = r.events })
  unfolding after_wait
  after_wait_sealed t id fuel w (r, some e) waited h = ground arith
  after_wait_sealed t id fuel w (none, none) waited h =
      absurd (wait_for_seal_informs fc id fuel w waited)
  after_wait_sealed t id fuel w (some r, none) waited h =
      let (v, given, status, clean) = wait_for_seal_sealed fc id fuel w r waited in
      (v, r, given, status, clean, refl)

  send_now-IsSealed :
      (tx : Tx) (t : Transaction E) (w : W)
      → builder.decode t.flow_transaction ≡ ok tx
      → (send_now svc tx t w).0 ≡ none
      → IsSealed t (send_now svc tx t w).1.events
  unfolding send_now IsSealed
  send_now-IsSealed tx t w decoded h = elim (Option-cases (fc.send_transaction tx (take w)).0) [
    | inr (x, e) ↦ ground arith
    | inl e ↦
        let id = builder.tx_id tx in
        let w' = (fc.send_transaction tx (take w)).1 in
        let (a, waited) = patience.answers id w' in
        let ended : (after_wait svc t (patience.answers id w').0).0 ≡ none = ground arith in
        let (v, r, given, status, clean, left) =
          after_wait_sealed t id (patience.rounds id w') w' (patience.answers id w').0
            (patience.answers id w').1 ended in
        (tx, v, r, decoded, given, status, clean, rw (e, send_now) (ap (λ k. k.events) left))
  ]

  -- sendTransaction returns without an error only if the client has reported the decoded
  -- transaction as sealed and without an error, and then the events of that result are in the
  -- transaction.
  pub send_transaction-IsSealed :
      (t : Transaction E) (w : W)
      → (send_transaction svc t w).0 ≡ none
      → IsSealed t (send_transaction svc t w).1.events
  unfolding send_transaction
  send_transaction-IsSealed t w h = elim (Result-cases (builder.decode t.flow_transaction)) [
    | inr (x, e) ↦ ground arith
    | inl (tx, d) ↦
        let w' = (fc.get_transaction (builder.tx_id tx) w).1 in
        elim (Option-cases (fc.get_transaction (builder.tx_id tx) w).0) [
          | inl e ↦
              let sent : (send_now svc tx t w').0 ≡ none = ground arith in
              rw (d, send_transaction) (rw e (send_now-IsSealed tx t w' d sent))
          | inr (x, e) ↦ elim (Bool-cases (is_unknown_transaction x)) [
            | inr other ↦ ground arith
            | inl missing ↦
                let sent : (send_now svc tx t w').0 ≡ none = ground arith in
                rw (d, send_transaction) (rw e (rw missing (send_now-IsSealed tx t w' d sent)))
          ]
        ]
  ]

  -- A transaction job that ends without an error names a stored transaction, and the client has
  -- reported this one as sealed and without an error.
  pub execute_transaction_job-IsSealed :
      (j : Job) (w : W)
      → (execute_transaction_job svc j w).0 ≡ none
      → (t : Transaction E) × (events : List E) × ((store.transaction j.transaction_id w).0 ≡ ok t)
        × IsSealed t events
  unfolding execute_transaction_job
  execute_transaction_job-IsSealed j w h =
      elim (Bool-cases (text_eq j.job_type transaction_job_type)) [
        | inr e ↦ ground arith
        | inl e ↦ elim (Result-cases (store.transaction j.transaction_id w).0) [
          | inr (x, r) ↦ ground arith
          | inl (t, r) ↦
              let w' = (store.transaction j.transaction_id w).1 in
              let sent : (send_transaction svc t w').0 ≡ none = ground arith in
              (t, (send_transaction svc t w').1.events, r, send_transaction-IsSealed t w' sent)
        ]
      ]

  -- executeTransactionJob either changes nothing of its job but to ask for a notification, or the
  -- job is of another type, and then it returns an error and touches nothing.
  execute_transaction_job_keeps :
      (j : Job) (w : W)
      → ((execute_transaction_job svc j w).1 ≡ record j { should_send_notification = true })
        ⊎ ((text_eq j.job_type transaction_job_type ≡ false)
            × (execute_transaction_job svc j w ≡ (some invalid_job_type, j, w)))
  unfolding execute_transaction_job
  execute_transaction_job_keeps j w = elim (Bool-cases (text_eq j.job_type transaction_job_type)) [
    | inr e ↦ inr (e, rw e refl)
    | inl e ↦ elim (Result-cases (store.transaction j.transaction_id w).0) [
      | inr (x, r) ↦ inl (rw (e, execute_transaction_job) (rw r refl))
      | inl (t, r) ↦ inl (rw (e, execute_transaction_job) (rw r refl))
    ]
  ]
