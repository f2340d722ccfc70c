-- ===== src/Handlers/Idempotency/Middleware.antt =====
-- The middleware IdempotencyHandler (handlers/idempotency.go), over any store that keeps the contract.
use flow_wallet_api.Prelude.{
  ℕ, ◌+◌, ◌≤◌, ◌<◌, ◌≡◌, ◌≢◌, refl, ap, ◌∙◌, ◌⊎◌, inl, inr, Bool, true, false, none, some, arith,
  Text, bytes, text_eq, text_eq_refl, length, ltb, ◌==◌,
}
use flow_wallet_api.Errors.{ok, Result-cases}
use flow_wallet_api.Handlers.{Request, Handler}
use flow_wallet_api.Handlers.Idempotency.{
  IdempotencyStore, Clock, Expiries, insert, IdempotencyHandlerOptions, is_ignored, get_failed,
  conflict, serve_once, idempotency_handler,
}
use flow_wallet_api.Handlers.Idempotency.Contract.{is_live, IsKeyStore}

not_dead : (until looked : ℕ) → false ≡ ltb looked until → ¬ (looked < until)
not_dead until looked dead live = ground arith

dead_at : (until looked : ℕ) → until ≤ looked → ltb looked until ≡ false
dead_at until looked old = ground arith

module _ {W : Type 0} (h : Handler W) (opts : IdempotencyHandlerOptions)
    (store : IdempotencyStore W) {clock : Clock W} {rows : W → Expiries}
    (c : IsKeyStore clock rows store) where
  open clock use {now}

  -- A POST request with a key, outside of the ignored paths.
  pub record IsChecked (r : Request) : Type 0 where
    pub not_ignored : is_ignored r.path opts.ignore_paths ≡ false
    pub is_post : text_eq r.method (bytes "POST") ≡ true
    pub has_key : (length r.idempotency_key == 0) ≡ false

  checked_served_once :
      (r : Request) (w : W)
      → IsChecked r
      → idempotency_handler h opts store r w ≡ serve_once h opts store r w
  unfolding idempotency_handler
  checked_served_once r w i = rw (i.not_ignored, i.is_post, i.has_key, idempotency_handler) refl

  -- The worlds behind Get and behind Set.
  abbrev pub after_get : Request → W → W
  after_get r w = (store.get r.idempotency_key w).1

  abbrev pub after_set : Request → W → W
  after_set r w = (store.set r.idempotency_key opts.expiry (after_get r w)).1

  -- In the world `w` the store does not know the request's key, and takes it.
  pub record Takes (r : Request) (w : W) : Type 0 where
    pub unknown : (store.get r.idempotency_key w).0 ≡ ok false
    pub taken : (store.set r.idempotency_key opts.expiry (after_get r w)).0 ≡ none

  Takes-served :
      (r : Request) (w : W)
      → IsChecked r
      → Takes r w
      → idempotency_handler h opts store r w ≡ h r (after_set r w)
  unfolding serve_once
  Takes-served r w i t = checked_served_once r w i ∙ rw (t.unknown, t.taken, serve_once) refl

  insert_self : (key : Text) (t : ℕ) (m : Expiries) → insert key t m key ≡ some t
  insert_self key t m = rw (text_eq_refl key) refl

  -- What the store holds for the key of a request that it has taken.
  taken_row :
      (r : Request) (w : W)
      → Takes r w
      → (t : ℕ) × (now (after_get r w) ≤ t)
        × (t ≤ now (after_set r w))
        × (rows (after_set r w) r.idempotency_key ≡ some (t + opts.expiry))
  taken_row r w t =
      let (at, from, to, stored) = c.set_ok r.idempotency_key opts.expiry (after_get r w) t.taken in
      (
        at,
        from,
        to,
        ap (λ m. m r.idempotency_key) stored
            ∙ insert_self r.idempotency_key (at + opts.expiry) (rows (after_get r w)),
      )

  rejected :
      (r : Request) (v : W)
      → (store.get r.idempotency_key v).0 ≢ ok false
      → (serve_once h opts store r v ≡ (conflict r.idempotency_key, after_get r v))
        ⊎ (serve_once h opts store r v ≡ (get_failed, after_get r v))
  unfolding serve_once
  rejected r v known = elim (Result-cases (store.get r.idempotency_key v).0) [
    | inr (x, e) ↦ inr (rw (e, serve_once) refl)
    | inl (true, e) ↦ inl (rw (e, serve_once) refl)
    | inl (false, e) ↦ absurd (known e)
  ]

  -- A checked POST request whose key the store takes is served. After it, while nobody writes the
  -- row of its key, a second checked request with this key that is answered within the expiry is
  -- not served: it gets 409, or 500 if the store cannot be read, in the world in which Get has left
  -- it.
  pub repeated_rejected :
      (r s : Request) (w v : W)
      → IsChecked r
      → IsChecked s
      → s.idempotency_key ≡ r.idempotency_key
      → Takes r w
      → rows v r.idempotency_key ≡ rows (after_set r w) r.idempotency_key
      → now (after_get s v) < now (after_get r w) + opts.expiry
      → (idempotency_handler h opts store r w ≡ h r (after_set r w))
        × ((idempotency_handler h opts store s v ≡ (conflict s.idempotency_key, after_get s v))
            ⊎ (idempotency_handler h opts store s v ≡ (get_failed, after_get s v)))
  repeated_rejected r s w v i k same t kept early =
      let (at, from, to, row) = taken_row r w t in
      let held : rows v s.idempotency_key ≡ some (at + opts.expiry) =
        ap (rows v) same ∙ kept ∙ row in
      let known : (store.get s.idempotency_key v).0 ≢ ok false = λ e.
        let (looked, after, before, dead) = c.get_ok s.idempotency_key v false e in
        not_dead (at + opts.expiry) looked (dead ∙ ap (is_live looked) held) (omega arith) in
      (Takes-served r w i t, rw (checked_served_once s v k) (rejected s v known))

  -- Once the expiry has passed after a request that the store has taken, while nobody writes the
  -- row of its key, a second checked request with this key is served again, if the store can be
  -- read and written.
  pub expired_served :
      (r s : Request) (w v : W)
      → IsChecked s
      → s.idempotency_key ≡ r.idempotency_key
      → Takes r w
      → rows v r.idempotency_key ≡ rows (after_set r w) r.idempotency_key
      → now (after_set r w) + opts.expiry ≤ now v
      → {found : Bool} → (store.get s.idempotency_key v).0 ≡ ok found
      → (store.set s.idempotency_key opts.expiry (after_get s v)).0 ≡ none
      → idempotency_handler h opts store s v ≡ h s (after_set s v)
  expired_served r s w v k same t kept late {found} read written =
      let (at, from, to, row) = taken_row r w t in
      let held : rows v s.idempotency_key ≡ some (at + opts.expiry) =
        ap (rows v) same ∙ kept ∙ row in
      let (looked, after, before, live) = c.get_ok s.idempotency_key v found read in
      let gone : found ≡ false =
        live ∙ ap (is_live looked) held ∙ dead_at (at + opts.expiry) looked (omega arith) in
      Takes-served s v k (record { unknown = read ∙ ap ok gone; taken = written })
