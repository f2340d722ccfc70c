-- ===== src/Handlers/Idempotency.antt =====
-- handlers/idempotency.go: the middleware that serves a POST request once per Idempotency-Key, and its
-- local and SQL stores. gorm and the clock are parameters.
pub mod Contract
pub mod Shared
pub mod Middleware
pub mod Tests
use flow_wallet_api.Prelude.{
  ℕ, ◌+◌, ◌≤◌, ◌≡◌, ◌≢◌, Bool, true, false, not, ◌&&◌, ◌||◌, Option, none, some, List, [], ◌∷◌,
  ◌++◌, Text, bytes, text_eq, has_prefix, length, ltb, ◌==◌, if◌then◌else◌,
}
use flow_wallet_api.Errors.{GoError, wrap_after, wrap_before, record_not_found, Result, ok, err}
use flow_wallet_api.Handlers.{Request, Response, http_error, Handler}

-- The interface IdempotencyStore.
pub record IdempotencyStore (W : Type 0) : Type 0 where
  pub get : Text → W → Result Bool × W
  pub set : Text → ℕ → W → Option GoError × W

-- time.Now(): the clock stands at `now`, and a reading may move it forward first.
pub record Clock (W : Type 0) : Type 0 where
  pub now : W → ℕ
  pub read : W → ℕ × W
  pub read_now : (w : W) → (read w).0 ≡ now (read w).1
  pub read_later : (w : W) → now w ≤ now (read w).1

-- The expiry of each key: map[string]time.Time, and the rows of idempotency_keys.
abbrev pub Expiries : Type 0
Expiries = Text → Option ℕ

abbrev pub insert : Text → ℕ → Expiries → Expiries
insert key t m k = if text_eq k key then some t else m k

abbrev pub remove : Text → Expiries → Expiries
remove key m k = if text_eq k key then none else m k

-- The field `keys` of an IdempotencyStoreLocal, as a part of the world.
pub record KeysField (W : Type 0) : Type 0 where
  pub clock : Clock W
  pub keys : W → Expiries
  pub put : Expiries → W → W
  pub put_keys : (m : Expiries) (w : W) → keys (put m w) ≡ m
  pub put_now : (m : Expiries) (w : W) → clock.now (put m w) ≡ clock.now w
  pub read_keys : (w : W) → keys (clock.read w).1 ≡ keys w

module _ {W : Type 0} (f : KeysField W) where
  open f use {clock, keys, put}

  -- Get, once the key was found: two readings of the clock.
  local_get_found : Text → ℕ → W → Result Bool × W
  local_get_found key v w =
      let (first, w') = clock.read w in
      if ltb first v
      then (ok true, w')
      else (let (second, w'') = clock.read w' in
          if ltb v second then (ok false, put (remove key (keys w'')) w'') else (ok false, w''))

  -- IdempotencyStoreLocal
  unfoldable pub local_store : IdempotencyStore W
  unfolding local_get_found
  local_store = record {
    get = λ key w. elim (keys w key) [ none ↦ (ok false, w) | some v ↦ local_get_found key v w ];
    set = λ key expiry w.
        let (t, w') = clock.read w in (none, put (insert key (t + expiry) (keys w')) w');
  }

-- errors.Is(err, gorm.ErrRecordNotFound)
unfoldable pub is_not_found : GoError → Bool
is_not_found record_not_found = true
is_not_found (wrap_after t e) = is_not_found e
is_not_found (wrap_before e t) = is_not_found e
is_not_found _ = false

-- What DELETE under `expiry_date < t` leaves of a row.
abbrev pub delete_old : ℕ → Option ℕ → Option ℕ
delete_old t none = none
delete_old t (some v) = if ltb v t then none else some v

-- What IdempotencyStoreGorm calls on *gorm.DB: First under `key = ? and expiry_date > ?`, Create with
-- ON CONFLICT DO UPDATE of the expiry, Delete under `expiry_date < ?`.
pub record KeyTable (W : Type 0) : Type 0 where
  pub clock : Clock W
  pub rows : W → Expiries
  pub first_later : Text → ℕ → W → Option GoError × W
  pub upsert : Text → ℕ → W → Option GoError × W
  pub delete_before : ℕ → W → Option GoError × W
  pub read_rows : (w : W) → rows (clock.read w).1 ≡ rows w
  pub first_keeps : (key : Text) (t : ℕ) (w : W) → rows (first_later key t w).1 ≡ rows w
  pub first_now : (key : Text) (t : ℕ) (w : W) → clock.now w ≤ clock.now (first_later key t w).1
  pub first_found :
      (key : Text) (t : ℕ) (w : W)
      → (first_later key t w).0 ≡ none
      → (v : ℕ) × (rows w key ≡ some v) × (ltb t v ≡ true)
  pub first_missing :
      (key : Text) (t v : ℕ) (w : W) (e : GoError)
      → (first_later key t w).0 ≡ some e
      → is_not_found e ≡ true
      → rows w key ≡ some v
      → ltb t v ≡ false
  pub upsert_writes :
      (key : Text) (t : ℕ) (w : W)
      → (upsert key t w).0 ≡ none
      → rows (upsert key t w).1 ≡ insert key t (rows w)
  pub upsert_fails :
      (key : Text) (t : ℕ) (w : W) {e : GoError}
      → (upsert key t w).0 ≡ some e
      → rows (upsert key t w).1 ≡ rows w
  pub upsert_now : (key : Text) (t : ℕ) (w : W) → clock.now w ≤ clock.now (upsert key t w).1
  pub delete_deletes :
      (t : ℕ) (w : W) (key : Text)
      → (delete_before t w).0 ≡ none
      → rows (delete_before t w).1 key ≡ delete_old t (rows w key)

module _ {W : Type 0} (t : KeyTable W) where
  open t use {clock, first_later, upsert, delete_before}

  -- IdempotencyStoreGorm.Get
  gorm_get : Text → W → Result Bool × W
  gorm_get key w =
      let (now, w') = clock.read w in
      let (e, w'') = first_later key now w' in
      elim e [
        | none ↦ (ok true, w'')
        | some x ↦ if is_not_found x then (ok false, w'') else (err x, w'')
      ]

  -- IdempotencyStoreGorm.Set
  gorm_set : Text → ℕ → W → Option GoError × W
  gorm_set key expiry w = let (now, w') = clock.read w in upsert key (now + expiry) w'

  -- IdempotencyStoreGorm
  unfoldable pub gorm_store : IdempotencyStore W
  unfolding gorm_get gorm_set
  gorm_store = record { get = gorm_get; set = gorm_set }

  -- IdempotencyStoreGorm.Prune
  unfoldable pub prune : W → Option GoError × W
  prune w = let (now, w') = clock.read w in delete_before now w'

pub record IdempotencyHandlerOptions : Type 0 where
  pub ignore_paths : List Text
  pub expiry : ℕ

-- The loop over the ignored paths.
abbrev pub is_ignored : Text → List Text → Bool
is_ignored path [] = false
is_ignored path (p ∷ ps) = has_prefix path p || is_ignored path ps

abbrev pub key_missing : Response
key_missing = http_error (bytes "Idempotency-Key header not found") 400

abbrev pub get_failed : Response
get_failed = http_error (bytes "Error while reading idempotency key") 500

abbrev pub set_failed : Response
set_failed = http_error (bytes "Error while saving used idempotency key") 500

abbrev pub conflict : Text → Response
conflict key = http_error (bytes "Idempotency-Key conflict, key: " ++ key) 409

module _ {W : Type 0} (h : Handler W) (opts : IdempotencyHandlerOptions)
    (store : IdempotencyStore W) where
  -- The part of IdempotencyHandler behind its three guards.
  serve_once : Handler W
  serve_once r w =
      let (exists, w') = store.get r.idempotency_key w in
      elim exists [
        | err e ↦ (get_failed, w')
        | ok true ↦ (conflict r.idempotency_key, w')
        | ok false ↦
            let (e, w'') = store.set r.idempotency_key opts.expiry w' in
            elim e [ some x ↦ (set_failed, w'') | none ↦ h r w'' ]
      ]

  -- IdempotencyHandler
  pub idempotency_handler : Handler W
  idempotency_handler r w =
      if is_ignored r.path opts.ignore_paths
      then h r w
      else if not (text_eq r.method (bytes "POST"))
      then h r w
      else if length r.idempotency_key == 0
      then (key_missing, w)
      else serve_once r w
