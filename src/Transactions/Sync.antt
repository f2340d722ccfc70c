-- ===== src/Transactions/Sync.antt =====
-- Create with sync set (transactions/service.go), as the services for accounts and tokens call it: it leaves the pool's
-- channel alone, so it is a function on the world.
use flow_wallet_api.Prelude.{
  ◌≡◌, refl, sym, ap, ◌∙◌, inl, inr, true, false, none, List, [], Text, bytes, arith, Option-cases,
  Option, Bool,
}
use flow_wallet_api.Errors.{wrap_after, Result, ok, err, ok_inj, Result-cases}
use flow_wallet_api.Jobs.Types.{Job}
use flow_wallet_api.Jobs.Pool.{PoolState}
use flow_wallet_api.Transactions.Types.{TransactionType, Transaction, Argument}
use flow_wallet_api.Transactions.{
  Service, create, create_sync, insert_and_send, new_transaction, send_transaction,
}
use flow_wallet_api.Transactions.Sending.{IsSealed, send_transaction-IsSealed}

-- A pool with an empty channel.
abbrev pub idle : {W : Type 0} → W → PoolState W
idle w = record { world = w; queue = []; stopped = false }

abbrev pub transaction_of :
    {E : Type 0} → Result (Option Job × Transaction E) → Result (Transaction E)
transaction_of (ok (j, t)) = ok t
transaction_of (err e) = err e

module _ {W A Tx E : Type 0} (svc : Service W A Tx E) where
  open svc use {store}

  -- Create with sync set, on the world.
  abbrev pub create_sealed :
      Text → Text → List Argument → TransactionType → W → Result (Transaction E) × W
  create_sealed proposer code arguments type w =
      let (r, st) = create svc true proposer code arguments type (idle w) in
      (transaction_of r, st.world)

  -- What Create does is the same in every pool with the world.
  create_in_any :
      (proposer code : Text) (arguments : List Argument) (type : TransactionType) (w : W)
      → (r : Result (Option Job × Transaction E)) × (w' : W) × ((queue : List Job) (stopped : Bool)
          → create svc true proposer code arguments type
              (record { world = w; queue = queue; stopped = stopped })
            ≡ (r, record { world = w'; queue = queue; stopped = stopped }))
  unfolding create insert_and_send create_sync
  create_in_any proposer code arguments type w =
      let made = new_transaction svc proposer code arguments type w in
      elim (Result-cases made.0) [
        | inr (e, r) ↦ (
          err (wrap_after (bytes "error while getting new transaction: ") e),
          made.1,
          λ queue stopped. rw (r, create) refl,
        )
        | inl (t, r) ↦ elim (Option-cases (store.insert_transaction t made.1).0) [
          | inr (x, i) ↦ (
            err (wrap_after (bytes "error while inserting transaction in db: ") x),
            (store.insert_transaction t made.1).1,
            λ queue stopped. rw (r, create) (rw (i, insert_and_send) refl),
          )
          | inl i ↦
              let w' = (store.insert_transaction t made.1).1 in
              elim (Option-cases (send_transaction svc t w').0) [
                | inr (x, s) ↦ (
                  err x,
                  (send_transaction svc t w').2,
                  λ queue stopped.
                      rw (r, create) (rw (i, insert_and_send) (rw (s, create_sync) refl)),
                )
                | inl s ↦ (
                  ok (none, (send_transaction svc t w').1),
                  (send_transaction svc t w').2,
                  λ queue stopped.
                      rw (r, create) (rw (i, insert_and_send) (rw (s, create_sync) refl)),
                )
              ]
        ]
      ]

  -- In any pool Create with sync set returns the same, and leaves the channel as it was.
  pub create_leaves_queue :
      (proposer code : Text) (arguments : List Argument) (type : TransactionType) (st : PoolState W)
      → ((create svc true proposer code arguments type st).0
          ≡ (create svc true proposer code arguments type (idle st.world)).0)
        × ((create svc true proposer code arguments type st).1
            ≡ record st { world = (create_sealed proposer code arguments type st.world).1 })
  create_leaves_queue proposer code arguments type st =
      let (r, w', any) = create_in_any proposer code arguments type st.world in
      let here = any st.queue st.stopped in
      let there = any [] false in
      (
        ap (λ p. p.0) here ∙ sym (ap (λ p. p.0) there),
        ap (λ p. p.1) here ∙ ap (λ p. record st { world = p.1.world }) (sym there),
      )

  -- Where Create with sync set returns a transaction without an error, this was built and inserted,
  -- the client has reported it as sealed and without an error, and it carries the events of that
  -- result.
  pub create_sealed-IsSealed :
      (proposer code : Text) (arguments : List Argument) (type : TransactionType)
      (tx : Transaction E) (w : W)
      → (create_sealed proposer code arguments type w).0 ≡ ok tx
      → (t : Transaction E) × (u v : W) × ((new_transaction svc proposer code arguments type w).0
          ≡ ok t)
        × ((store.insert_transaction t u).0 ≡ none)
        × (tx ≡ (send_transaction svc t v).1)
        × IsSealed svc t tx.events
  unfolding create insert_and_send create_sync
  create_sealed-IsSealed proposer code arguments type tx w h =
      elim (Result-cases (new_transaction svc proposer code arguments type w).0) [
        | inr (e, r) ↦ absurd (ground arith)
        | inl (t, r) ↦
            let w₁ = (new_transaction svc proposer code arguments type w).1 in
            elim (Option-cases (store.insert_transaction t w₁).0) [
              | inr (x, i) ↦ absurd (ground arith)
              | inl i ↦
                  let w₂ = (store.insert_transaction t w₁).1 in
                  elim (Option-cases (send_transaction svc t w₂).0) [
                    | inr (x, s) ↦ absurd (ground arith)
                    | inl s ↦
                        let same : tx ≡ (send_transaction svc t w₂).1 = ok_inj (
                          sym h
                          ∙ rw (r, create) (rw (i, insert_and_send) (rw (s, create_sync) refl))) in
                        (t, w₁, w₂, r, i, same, rw same (send_transaction-IsSealed svc t w₂ s))
                  ]
            ]
      ]
