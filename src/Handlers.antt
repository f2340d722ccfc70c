-- ===== src/Handlers.antt =====
-- handlers/: the HTTP layer. net/http and gorilla are parameters: a handler is a function from the request
-- and the world to the response.
pub mod Failures
pub mod Idempotency
pub mod Settings
pub mod Writing
pub mod Bodies
pub mod Accounts
pub mod Tokens
pub mod Transactions
pub mod Jobs
pub mod Templates
pub mod Tests
use flow_wallet_api.Prelude.{ℕ, Bool, true, false, Text, bytes, contains, if◌then◌else◌}
use flow_wallet_api.Errors.{GoError, request_error, error_text}

-- What the code reads of a *http.Request. A header that is missing is the empty text.
pub record Request : Type 0 where
  pub path : Text
  pub method : Text
  pub idempotency_key : Text

pub record Response : Type 0 where
  pub status : ℕ
  pub body : Text

-- http.Error
abbrev pub http_error : Text → ℕ → Response
http_error text status = record { status = status; body = text }

-- http.Handler
abbrev pub Handler : Type 0 → Type 0
Handler W = Request → W → Response × W

-- The last two tests of handleError.
abbrev not_found_or_bad : GoError → Response
not_found_or_bad e =
    if contains (error_text e) (bytes "record not found")
    then http_error (error_text e) 404
    else http_error (error_text e) 400

-- handleError
unfoldable pub handle_error : GoError → Response
handle_error (request_error status e) = http_error (error_text e) status
handle_error e = not_found_or_bad e
