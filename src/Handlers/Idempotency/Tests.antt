-- ===== src/Handlers/Idempotency/Tests.antt =====
-- Examples for handlers/idempotency.go: keys and a clock in memory. Each reading of the clock moves it on.
use flow_wallet_api.Prelude.{
  ℕ, suc, ◌+◌, ◌≤◌, ◌≡◌, refl, ◌⊎◌, inl, inr, true, false, Option, none, some, [], ◌∷◌, arith, Text,
  bytes, ltb, text_eq, has_prefix, Option-cases, if◌then◌else◌,
}
use native.Mathlib.Nat.{le_refl}
use flow_wallet_api.Errors.{GoError, record_not_found}
use flow_wallet_api.Handlers.{Request, Response, http_error, Handler}
use flow_wallet_api.Handlers.Idempotency.{
  Clock, Expiries, insert, delete_old, is_not_found, KeysField, local_store, KeyTable, gorm_store,
  IdempotencyHandlerOptions, conflict, get_failed, idempotency_handler,
}
use flow_wallet_api.Handlers.Idempotency.Contract.{is_live, IsKeyStore, local_store-IsKeyStore}
use flow_wallet_api.Handlers.Idempotency.Shared.{gorm_store-IsKeyStore}
use flow_wallet_api.Handlers.Idempotency.Middleware.{
  IsChecked, Takes, repeated_rejected, expired_served,
}

record Memory : Type 0 where
  time : ℕ
  held : Expiries

later : (n : ℕ) → n ≤ suc n
later n = omega arith

abbrev clock : Clock Memory
clock = record {
  now = λ w. w.time;
  read = λ w. (suc w.time, record w { time = suc w.time });
  read_now = λ w. refl;
  read_later = λ w. later w.time;
}

abbrev field : KeysField Memory
field = record {
  clock = clock;
  keys = λ w. w.held;
  put = λ m w. record w { held = m };
  put_keys = λ m w. refl;
  put_now = λ m w. refl;
  read_keys = λ w. refl;
}

local_store-IsKeyStore_example : IsKeyStore clock (λ w. w.held) (local_store field)
local_store-IsKeyStore_example = local_store-IsKeyStore field

abbrev find_later : Text → ℕ → Memory → Option GoError
find_later key t w = if is_live t (w.held key) then none else some record_not_found

find_later_found :
    (key : Text) (t : ℕ) (w : Memory)
    → find_later key t w ≡ none
    → (v : ℕ) × (w.held key ≡ some v) × (ltb t v ≡ true)
find_later_found key t w h = elim (Option-cases (w.held key)) [
  | inl e ↦ ground arith
  | inr (v, e) ↦ (v, e, ground arith)
]

find_later_missing :
    (key : Text) (t v : ℕ) (w : Memory) (e : GoError)
    → find_later key t w ≡ some e
    → is_not_found e ≡ true
    → w.held key ≡ some v
    → ltb t v ≡ false
find_later_missing key t v w e h missing row = ground arith

never_fails : {e : GoError} {m n : Expiries} → none ≡ some e → m ≡ n
never_fails q = ground arith

abbrev table : KeyTable Memory
table = record {
  clock = clock;
  rows = λ w. w.held;
  first_later = λ key t w. (find_later key t w, w);
  upsert = λ key t w. (none, record w { held = insert key t w.held });
  delete_before = λ t w. (none, record w { held = λ k. delete_old t (w.held k) });
  read_rows = λ w. refl;
  first_keeps = λ key t w. refl;
  first_now = λ key t w. le_refl w.time;
  first_found = find_later_found;
  first_missing = find_later_missing;
  upsert_writes = λ key t w h. refl;
  upsert_fails = λ key t w {e} h. never_fails {e = e} h;
  upsert_now = λ key t w. le_refl w.time;
  delete_deletes = λ t w key h. refl;
}

gorm_store-IsKeyStore_example : IsKeyStore clock (λ w. w.held) (gorm_store table)
gorm_store-IsKeyStore_example = gorm_store-IsKeyStore table

abbrev fresh : Memory
fresh = record { time = 100; held = insert (bytes "old") 90 (λ k. none) }

-- A handler that answers 200 and takes a while.
abbrev slow : Handler Memory
slow r w = (http_error (bytes "done") 200, record w { time = w.time + 10 })

abbrev opts : IdempotencyHandlerOptions
opts = record { ignore_paths = bytes "/v1/health" ∷ []; expiry = 60 }

abbrev request : Request
request = record { path = bytes "/v1/accounts"; method = bytes "POST"; idempotency_key = bytes "k" }

abbrev handle : Request → Memory → Response × Memory
handle = idempotency_handler slow opts (local_store field)

is_checked : IsChecked slow opts (local_store field) (local_store-IsKeyStore field) request
unfolding text_eq has_prefix
is_checked = record { not_ignored = refl; is_post = refl; has_key = refl }

takes : Takes slow opts (local_store field) (local_store-IsKeyStore field) request fresh
unfolding local_store text_eq
takes = record { unknown = refl; taken = refl }

-- The world behind the first request, and the same with the clock past the expiry.
abbrev served : Memory
served = record { time = 111; held = insert (bytes "k") 161 fresh.held }

abbrev expired : Memory
expired = record served { time = 200 }

repeated_rejected_example :
    (handle request fresh ≡ slow request ((local_store field).set (bytes "k") 60 fresh).1)
    × ((handle request served
          ≡ (conflict (bytes "k"), ((local_store field).get (bytes "k") served).1))
        ⊎ (handle request served ≡ (get_failed, ((local_store field).get (bytes "k") served).1)))
unfolding local_store text_eq
repeated_rejected_example =
    repeated_rejected slow opts (local_store field) (local_store-IsKeyStore field) request request
      fresh served is_checked is_checked refl takes refl (omega arith)

expired_served_example :
    handle request expired
    ≡ slow request
        ((local_store field).set (bytes "k") 60 ((local_store field).get (bytes "k") expired).1).1
unfolding local_store text_eq
expired_served_example =
    expired_served slow opts (local_store field) (local_store-IsKeyStore field) request request
      fresh expired is_checked refl takes refl (omega arith) refl refl
