-- ===== src/Errors.antt =====
-- errors/errors.go, with the Go `error` values that the program makes and tests.
use flow_wallet_api.Prelude.{
  ℕ, ◌≡◌, refl, ◌⊎◌, inl, inr, Bool, true, false, List, [], ◌∷◌, ◌++◌, ◌||◌, Text, bytes, ◌==◌,
}

-- google.golang.org/grpc/codes: the codes that the source names, and any other by its number.
pub data Code : Type 0 where
  deadline_exceeded resource_exhausted internal unavailable not_found : Code
  other_code : ℕ → Code

-- A Go `error` value, by what the program can ask of it: its dynamic type, what it wraps, its text.
pub data GoError : Type 0 where
  -- errors.New(text), or fmt.Errorf with no %w
  plain : Text → GoError
  -- a value that implements net.Error
  net_error : Text → GoError
  -- a grpc.RPCError
  rpc_error : Code → Text → GoError
  -- &errors.RequestError{StatusCode, Err}
  request_error : ℕ → GoError → GoError
  -- &chain_events.LockError{Err}
  lock_error : GoError → GoError
  -- jobs.ErrPermanentFailure, jobs.ErrInvalidJobType, gorm.ErrRecordNotFound
  permanent_failure invalid_job_type record_not_found : GoError
  -- fmt.Errorf("prefix%w", err) and fmt.Errorf("%w suffix", err)
  wrap_after : Text → GoError → GoError
  wrap_before : GoError → Text → GoError

-- err.Error()
unfoldable pub error_text : GoError → Text
error_text (plain t) = t
error_text (net_error t) = t
error_text (rpc_error c t) = t
error_text (request_error status e) = error_text e
error_text (lock_error e) = error_text e
error_text permanent_failure = bytes "permanent failure"
error_text invalid_job_type = bytes "invalid job type"
error_text record_not_found = bytes "record not found"
error_text (wrap_after t e) = t ++ error_text e
error_text (wrap_before e t) = error_text e ++ t

-- errors.Is(err, jobs.ErrPermanentFailure); RequestError and LockError have no Unwrap.
unfoldable pub is_permanent_failure : GoError → Bool
is_permanent_failure permanent_failure = true
is_permanent_failure (wrap_after t e) = is_permanent_failure e
is_permanent_failure (wrap_before e t) = is_permanent_failure e
is_permanent_failure _ = false

-- The table accessAPIConnectionErrors, and the loop that looks a code up in it.
abbrev pub access_api_connection_errors : List Code
access_api_connection_errors = deadline_exceeded ∷ resource_exhausted ∷ internal ∷ unavailable ∷ []

abbrev pub code_eq : Code → Code → Bool
code_eq deadline_exceeded deadline_exceeded = true
code_eq resource_exhausted resource_exhausted = true
code_eq internal internal = true
code_eq unavailable unavailable = true
code_eq not_found not_found = true
code_eq (other_code m) (other_code n) = m == n
code_eq _ _ = false

abbrev mem_code : Code → List Code → Bool
mem_code c [] = false
mem_code c (d ∷ ds) = code_eq c d || mem_code c ds

-- IsChainConnectionError: type assertions on the error itself, not on what it wraps.
unfoldable pub is_chain_connection_error : GoError → Bool
is_chain_connection_error (net_error t) = true
is_chain_connection_error (rpc_error c t) = mem_code c access_api_connection_errors
is_chain_connection_error _ = false

-- The pair (value, error) that a Go function returns.
pub data Result {ℓ} (A : Type ℓ) : Type ℓ where
  ok : A → Result A
  err : GoError → Result A

pub Result-cases {ℓ} :
    {A : Type ℓ} (r : Result A) → ((a : A) × (r ≡ ok a)) ⊎ ((e : GoError) × (r ≡ err e))
Result-cases (ok a) = inl (a, refl)
Result-cases (err e) = inr (e, refl)

pub ok_inj {ℓ} : {A : Type ℓ} {a b : A} → ok a ≡ ok b → a ≡ b
ok_inj e = cc
