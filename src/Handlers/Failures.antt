-- ===== src/Handlers/Failures.antt =====
-- handleError (handlers/handlers.go).
use flow_wallet_api.Prelude.{ℕ, ◌≡◌, refl, false, ◌++◌, Text, bytes, contains, contains-append}
use flow_wallet_api.Errors.{
  GoError, request_error, record_not_found, wrap_after, wrap_before, error_text,
}
use flow_wallet_api.Handlers.{http_error, handle_error}

-- handleError answers 404 for a missing record that was wrapped in text on both sides, a request
-- error with its own status and text, and a wrapped request error with 400 unless its text speaks
-- of a missing record.
handle_error_lem :
    (before after : Text) (status : ℕ) (e : GoError)
    → ((handle_error (wrap_after before (wrap_before record_not_found after))).status ≡ 404)
      × (handle_error (request_error status e) ≡ http_error (error_text e) status)
      × (contains (before ++ error_text e) (bytes "record not found") ≡ false
          → (handle_error (wrap_after before (request_error status e))).status ≡ 400)
unfolding handle_error error_text
handle_error_lem before after status e =
    (rw (contains-append before (bytes "record not found") after) refl, refl, λ h. rw h refl)
