-- ===== src/Transactions/Lookup.antt =====
-- Details (transactions/service.go).
use flow_wallet_api.Prelude.{◌≡◌, refl, true, false, none, Text, bytes, text_eq}
use flow_wallet_api.Errors.{GoError, error_text, ok, err}
use flow_wallet_api.FlowHelpers.{validate_transaction_id, TransactionResult}
use flow_wallet_api.Transactions.Types.{no_transaction}
use flow_wallet_api.Transactions.{Service, transaction_not_found, with_events, with_result, details}

module _ {W A Tx E : Type 0} (svc : Service W A Tx E) where
  open svc use {store, fc, sdk}

  -- If the store fails on a valid id, Details answers 404 where the error's text is "record not
  -- found"; any other error it forgets: if the client knows the result, it succeeds with a
  -- transaction without id, type and proposer that has the result's events.
  pub details_store_error :
      (id : Text) (w : W) (e : GoError)
      → validate_transaction_id sdk id ≡ none
      → (store.transaction id w).0 ≡ err e
      → (text_eq (error_text e) (bytes "record not found") ≡ true
          → (details svc id w).0 ≡ err transaction_not_found)
        × ((r : TransactionResult E)
            → text_eq (error_text e) (bytes "record not found") ≡ false
            → (fc.get_transaction_result id (store.transaction id w).1).0 ≡ ok r
            → (details svc id w).0 ≡ ok (record no_transaction { events = r.events }))
  unfolding details with_result with_events
  details_store_error id w e valid failed = (
    λ missing. rw (valid, failed, details, with_result) (rw missing refl),
    λ r other known. rw (valid, failed, details, with_result) (rw (other, known, with_events) refl),
  )
