-- ===== src/Handlers/Writing.antt =====
-- What the handlers of handlers/ share (handlers/handlers.go): the response as calls write it, the parts of the
-- request, and the answers that they all give. net/http, gorilla/mux, strconv and encoding/json are parameters;
-- the line ends that http.Error and Encode add are left out.
use flow_wallet_api.Prelude.{
  ℕ, Bool, true, false, not, Option, none, some, [], ◌++◌, Text, bytes, text_eq, ℤ, pos,
}
use flow_wallet_api.Errors.{GoError, Result, ok, err}
use flow_wallet_api.Handlers.{handle_error}
use flow_wallet_api.Handlers.Settings.{empty_body_error, invalid_body_error}

-- A http.ResponseWriter: the status, once it is written, and the content so far.
pub record Writer : Type 0 where
  pub header : Option ℕ
  pub content : Text

abbrev pub no_answer : Writer
no_answer = record { header = none; content = [] }

-- WriteHeader: a second call does nothing.
abbrev pub first_header : ℕ → Option ℕ → Option ℕ
first_header status none = some status
first_header status (some old) = some old

unfoldable pub write_header : ℕ → Writer → Writer
write_header status rw = record rw { header = first_header status rw.header }

-- WriteHeader, then Write.
unfoldable pub write : ℕ → Text → Writer → Writer
unfolding write_header
write status text rw = record {
  header = first_header status rw.header;
  content = rw.content ++ text;
}

-- handleError, on a writer.
unfoldable pub write_error : GoError → Writer → Writer
write_error e = write (handle_error e).status (handle_error e).body

-- What the handlers read of a *http.Request: mux.Vars, FormValue, and the body, none where it is nil or NoBody.
pub record HttpRequest : Type 0 where
  pub vars : Text → Option Text
  pub form_value : Text → Text
  pub request_body : Option Text

-- vars["..."], with Go's zero value for a key that is missing.
abbrev pub or_empty : Option Text → Text
or_empty none = []
or_empty (some t) = t

abbrev pub var : HttpRequest → Text → Text
var r name = or_empty (r.vars name)

-- Whether to serve sync.
abbrev pub is_sync : HttpRequest → Bool
is_sync r = not (text_eq (r.form_value (bytes "sync")) [])

-- strconv.Atoi: its value, and its error.
abbrev pub Atoi : Type 0
Atoi = Text → ℤ × Option GoError

-- A limit or an offset: zero where Atoi fails.
abbrev pub or_zero : ℤ × Option GoError → ℤ
or_zero (n, none) = n
or_zero (n, some e) = pos 0

module _ {W X : Type 0} where
  -- The end of a handler: handleError and return, or handleJsonResponse.
  unfoldable pub respond : ℕ → (X → Text) → Result X × W → Writer → Writer × W
  respond status encode (ok x, w) rw = (write status (encode x) rw, w)
  respond status encode (err e, w) rw = (write_error e rw, w)

module _ {W X Y : Type 0} where
  -- checkNonEmptyBody and Decode, before the rest of a handler: `refuse` is handleError and return.
  unfoldable pub with_body :
      (Text → Result X) → HttpRequest → (GoError → W → Y) → (X → W → Y) → W → Y
  with_body decode r refuse k w = elim r.request_body [
    | none ↦ refuse empty_body_error w
    | some body ↦ elim (decode body) [ err e ↦ refuse invalid_body_error w | ok x ↦ k x w ]
  ]

-- handleError, and return.
abbrev pub refuse_with : {W : Type 0} → Writer → GoError → W → Writer × W
refuse_with rw e w = (write_error e rw, w)

-- handleError, and return, in a handler that may panic.
abbrev pub refuse_some : {W : Type 0} → Writer → GoError → W → Option (Writer × W)
refuse_some rw e w = some (write_error e rw, w)

module _ {J X : Type 0} where
  -- The end of a handler that creates: the object or the job, and a panic (none) where a pointer is nil whose
  -- ToJSONResponse is called.
  created : Bool → (J → Text) → (X → Text) → Option J × Option X → Option Text
  created true encode_job encode (j, none) = none
  created true encode_job encode (j, some x) = some (encode x)
  created false encode_job encode (none, x) = none
  created false encode_job encode (some j, x) = some (encode_job j)

  unfoldable pub respond_created :
      {W : Type 0}
      → Bool
      → (J → Text)
      → (X → Text)
      → Result (Option J × Option X) × W
      → Writer
      → Option (Writer × W)
  unfolding created
  respond_created sync encode_job encode (err e, w) rw = some (write_error e rw, w)
  respond_created sync encode_job encode (ok made, w) rw =
      elim (created sync encode_job encode made) [
        | none ↦ none
        | some text ↦ some (write 201 text rw, w)
      ]
