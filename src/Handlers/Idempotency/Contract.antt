-- ===== src/Handlers/Idempotency/Contract.antt =====
-- What the middleware relies on of an IdempotencyStore, and that the local and the SQL store of
-- handlers/idempotency.go keep it.
use flow_wallet_api.Prelude.{
  ℕ, ◌+◌, ◌≤◌, ◌≡◌, refl, ap, ◌∙◌, inl, inr, Bool, false, Option, none, some, arith, Text, text_eq,
  text_eq_iff, ltb, Bool-cases, Option-cases,
}
use native.Mathlib.Nat.{le_refl}
use flow_wallet_api.Errors.{GoError, ok}
use flow_wallet_api.Handlers.Idempotency.{
  IdempotencyStore, Clock, Expiries, insert, remove, KeysField, local_get_found, local_store,
}

-- A key whose expiry lies behind the time `t`.
abbrev pub is_live : ℕ → Option ℕ → Bool
is_live t none = false
is_live t (some v) = ltb t v

-- Get says whether the key is live at some moment of the call, and changes the life of no key. Set
-- gives the key its expiry, counted from some moment of the call, or fails and changes nothing.
pub record IsKeyStore {W : Type 0} (clock : Clock W) (rows : W → Expiries) (s : IdempotencyStore W)
    : Type 0 where
  pub get_ok :
      (key : Text) (w : W) (b : Bool)
      → (s.get key w).0 ≡ ok b
      → (t : ℕ) × (clock.now w ≤ t) × (t ≤ clock.now (s.get key w).1) × (b ≡ is_live t (rows w key))
  pub get_keeps :
      (key k : Text) (w : W) (t : ℕ)
      → clock.now (s.get key w).1 ≤ t
      → is_live t (rows (s.get key w).1 k) ≡ is_live t (rows w k)
  pub set_ok :
      (key : Text) (expiry : ℕ) (w : W)
      → (s.set key expiry w).0 ≡ none
      → (t : ℕ) × (clock.now w ≤ t)
        × (t ≤ clock.now (s.set key expiry w).1)
        × (rows (s.set key expiry w).1 ≡ insert key (t + expiry) (rows w))
  pub set_fails :
      (key : Text) (expiry : ℕ) (w : W) {e : GoError}
      → (s.set key expiry w).0 ≡ some e
      → rows (s.set key expiry w).1 ≡ rows w

-- Removing a key that has expired changes the life of no key.
remove_dead :
    (m : Expiries) (key k : Text) (t v : ℕ)
    → m key ≡ some v
    → v ≤ t
    → is_live t (remove key m k) ≡ is_live t (m k)
remove_dead m key k t v found dead = elim (Bool-cases (text_eq k key)) [
  | inr other ↦ rw other refl
  | inl same ↦
      let at : m k ≡ some v = ap m ((text_eq_iff k key).0 same) ∙ found in
      rw (same, at) (ground arith)
]

module _ {W : Type 0} (f : KeysField W) where
  open f use {clock, keys, put}
  open clock use {now, read}

  local_get_found_ok :
      (key : Text) (v : ℕ) (w : W) (b : Bool)
      → (local_get_found f key v w).0 ≡ ok b
      → (t : ℕ) × (now w ≤ t) × (t ≤ now (local_get_found f key v w).1) × (b ≡ ltb t v)
  unfolding local_get_found
  local_get_found_ok key v w b h =
      let w' = (read w).1 in
      let w'' = (read w').1 in
      (
        (read w).0,
        omega (arith, clock.read_now w, clock.read_later w),
        ground
            (arith, clock.read_now w, clock.read_later w', f.put_now (remove key (keys w'')) w''),
        ground arith,
      )

  local_get_found_keeps :
      (key k : Text) (v : ℕ) (w : W) (t : ℕ)
      → keys w key ≡ some v
      → now (local_get_found f key v w).1 ≤ t
      → is_live t (keys (local_get_found f key v w).1 k) ≡ is_live t (keys w k)
  unfolding local_get_found
  local_get_found_keeps key k v w t found late =
      let w' = (read w).1 in
      let w'' = (read w').1 in
      let once : keys w' ≡ keys w = f.read_keys w in
      let twice : keys w'' ≡ keys w = f.read_keys w' ∙ once in
      elim (Bool-cases (ltb (read w).0 v)) [
        | inl live ↦ rw (live, local_get_found) (ap (λ m. is_live t (m k)) once)
        | inr dead ↦ elim (Bool-cases (ltb v (read w').0)) [
          | inr equal ↦ rw (dead, local_get_found) (rw equal (ap (λ m. is_live t (m k)) twice))
          | inl expired ↦
              let removed = put (remove key (keys w'')) w'' in
              let ended : now removed ≤ t = ground (arith, dead, expired, late) in
              let passed : v ≤ t =
                ground (arith, clock.read_now w', f.put_now (remove key (keys w'')) w'') in
              rw (dead, local_get_found)
                (rw expired (
                  ap (λ m. is_live t (m k)) (f.put_keys (remove key (keys w'')) w'')
                  ∙ remove_dead (keys w'') key k t v (ap (λ m. m key) twice ∙ found) passed
                  ∙ ap (λ m. is_live t (m k)) twice))
        ]
      ]

  local_get_ok :
      (key : Text) (w : W) (b : Bool)
      → ((local_store f).get key w).0 ≡ ok b
      → (t : ℕ) × (now w ≤ t)
        × (t ≤ now ((local_store f).get key w).1)
        × (b ≡ is_live t (keys w key))
  unfolding local_store
  local_get_ok key w b h = elim (Option-cases (keys w key)) [
    | inl e ↦ rw (e, local_store) (now w, le_refl (now w), le_refl (now w), ground arith)
    | inr (v, e) ↦ rw (e, local_store) (local_get_found_ok key v w b (ground arith))
  ]

  local_get_keeps :
      (key k : Text) (w : W) (t : ℕ)
      → now ((local_store f).get key w).1 ≤ t
      → is_live t (keys ((local_store f).get key w).1 k) ≡ is_live t (keys w k)
  unfolding local_store
  local_get_keeps key k w t late = elim (Option-cases (keys w key)) [
    | inl e ↦ rw (e, local_store) refl
    | inr (v, e) ↦ rw (e, local_store) (local_get_found_keeps key k v w t e (ground arith))
  ]

  local_set_ok :
      (key : Text) (expiry : ℕ) (w : W)
      → (t : ℕ) × (now w ≤ t)
        × (t ≤ now ((local_store f).set key expiry w).1)
        × (keys ((local_store f).set key expiry w).1 ≡ insert key (t + expiry) (keys w))
  unfolding local_store
  local_set_ok key expiry w =
      let (t, w') = read w in
      (
        (read w).0,
        omega (arith, clock.read_now w, clock.read_later w),
        omega (
          arith,
          clock.read_now w,
          f.put_now (insert key ((read w).0 + expiry) (keys (read w).1)) (read w).1,
        ),
        f.put_keys (insert key ((read w).0 + expiry) (keys (read w).1)) (read w).1
            ∙ ap (insert key ((read w).0 + expiry)) (f.read_keys w),
      )

  local_set_fails :
      (key : Text) (expiry : ℕ) (w : W) {e : GoError}
      → ((local_store f).set key expiry w).0 ≡ some e
      → keys ((local_store f).set key expiry w).1 ≡ keys w
  unfolding local_store
  local_set_fails key expiry w h = ground arith

  -- The local store keeps the contract of an idempotency store: Get says whether the key is live at
  -- some moment of the call and changes the life of no key, Set gives the key its expiry.
  pub local_store-IsKeyStore : IsKeyStore clock keys (local_store f)
  local_store-IsKeyStore = record {
    get_ok = local_get_ok;
    get_keeps = local_get_keeps;
    set_ok = λ key expiry w h. local_set_ok key expiry w;
    set_fails = λ key expiry w {e} h. local_set_fails key expiry w {e = e} h;
  }
