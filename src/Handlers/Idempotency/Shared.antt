-- ===== src/Handlers/Idempotency/Shared.antt =====
-- The SQL store of idempotency keys (handlers/idempotency.go), which several processes share.
use flow_wallet_api.Prelude.{
  ℕ, ◌+◌, ◌≤◌, ◌<◌, ◌≡◌, refl, sym, ap, ◌∙◌, inl, inr, Bool, true, false, Option, none, some, arith,
  Text, Bool-cases, Option-cases,
}
use flow_wallet_api.Errors.{GoError, ok}
use flow_wallet_api.Handlers.Idempotency.{
  insert, delete_old, KeyTable, is_not_found, gorm_get, gorm_set, gorm_store, prune,
}
use flow_wallet_api.Handlers.Idempotency.Contract.{is_live, IsKeyStore}

delete_old-is_live :
    (at late : ℕ) (o : Option ℕ) → at ≤ late → is_live late (delete_old at o) ≡ is_live late o
delete_old-is_live at late none later = refl
delete_old-is_live at late (some v) later = ground arith

delete_old_gone : (at v : ℕ) → v < at → delete_old at (some v) ≡ none
delete_old_gone at v old = ground arith

module _ {W : Type 0} (t : KeyTable W) where
  open t use {clock, rows, first_later, upsert}
  open clock use {now, read}

  -- First finds no row of a key that is not live.
  first_dead :
      (key : Text) (at : ℕ) (w : W) {e : GoError}
      → (first_later key at w).0 ≡ some e
      → is_not_found e ≡ true
      → is_live at (rows w key) ≡ false
  first_dead key at w {e} missing known = elim (Option-cases (rows w key)) [
    | inl r ↦ rw r refl
    | inr (v, r) ↦ rw r (t.first_missing key at v w e missing known r)
  ]

  gorm_get_ok :
      (key : Text) (w : W) (b : Bool)
      → (gorm_get t key w).0 ≡ ok b
      → (at : ℕ) × (now w ≤ at) × (at ≤ now (gorm_get t key w).1) × (b ≡ is_live at (rows w key))
  unfolding gorm_get
  gorm_get_ok key w b h =
      let (at, w') = read w in
      let found = first_later key (read w).0 (read w).1 in
      let start : now w ≤ (read w).0 = omega (arith, clock.read_now w, clock.read_later w) in
      let end_ : (read w).0 ≤ now found.1 =
        omega (arith, clock.read_now w, t.first_now key (read w).0 (read w).1) in
      let same : is_live (read w).0 (rows (read w).1 key) ≡ is_live (read w).0 (rows w key) =
        ap (λ m. is_live (read w).0 (m key)) (t.read_rows w) in
      elim (Option-cases found.0) [
        | inl e ↦
            let (v, row, live) = t.first_found key (read w).0 (read w).1 e in
            let there : b ≡ true = ground arith in
            rw (e, gorm_get)
              ((read w).0, start, end_, there ∙ sym (ap (is_live (read w).0) row ∙ live) ∙ same)
        | inr (x, e) ↦ elim (Bool-cases (is_not_found x)) [
          | inr failed ↦ ground arith
          | inl missing ↦
              let gone : b ≡ false = ground arith in
              rw (e, gorm_get)
                (rw missing (
                  (read w).0,
                  start,
                  end_,
                  gone ∙ sym (first_dead key (read w).0 (read w).1 {e = x} e missing) ∙ same,
                ))
        ]
      ]

  gorm_get_rows : (key : Text) (w : W) → rows (gorm_get t key w).1 ≡ rows w
  unfolding gorm_get
  gorm_get_rows key w = ground (arith, t.first_keeps key (read w).0 (read w).1, t.read_rows w)

  gorm_set_ok :
      (key : Text) (expiry : ℕ) (w : W)
      → (gorm_set t key expiry w).0 ≡ none
      → (at : ℕ) × (now w ≤ at)
        × (at ≤ now (gorm_set t key expiry w).1)
        × (rows (gorm_set t key expiry w).1 ≡ insert key (at + expiry) (rows w))
  unfolding gorm_set
  gorm_set_ok key expiry w h = (
    (read w).0,
    omega (arith, clock.read_now w, clock.read_later w),
    omega (arith, clock.read_now w, t.upsert_now key ((read w).0 + expiry) (read w).1),
    t.upsert_writes key ((read w).0 + expiry) (read w).1 h
        ∙ ap (insert key ((read w).0 + expiry)) (t.read_rows w),
  )

  gorm_set_fails :
      (key : Text) (expiry : ℕ) (w : W) {e : GoError}
      → (gorm_set t key expiry w).0 ≡ some e
      → rows (gorm_set t key expiry w).1 ≡ rows w
  unfolding gorm_set
  gorm_set_fails key expiry w {e} h =
      t.upsert_fails key ((read w).0 + expiry) (read w).1 {e = e} h ∙ t.read_rows w

  -- The SQL store keeps the same contract over the rows of its table, also where a call fails.
  pub gorm_store-IsKeyStore : IsKeyStore clock rows (gorm_store t)
  unfolding gorm_store
  gorm_store-IsKeyStore = record {
    get_ok = gorm_get_ok;
    get_keeps = λ key k w late h. ap (λ m. is_live late (m k)) (gorm_get_rows key w);
    set_ok = gorm_set_ok;
    set_fails = λ key expiry w {e} h. gorm_set_fails key expiry w {e = e} h;
  }

  -- A Prune that succeeds changes the life of no key at any time from some moment of the call on,
  -- and leaves no key that expired before that moment.
  prune-is_live :
      (w : W)
      → (prune t w).0 ≡ none
      → (at : ℕ) × (now w ≤ at)
        × ((key : Text) (late : ℕ)
            → at ≤ late
            → is_live late (rows (prune t w).1 key) ≡ is_live late (rows w key))
        × ((key : Text) (v : ℕ) → v < at → rows w key ≡ some v → rows (prune t w).1 key ≡ none)
  unfolding prune
  prune-is_live w h = (
    (read w).0,
    omega (arith, clock.read_now w, clock.read_later w),
    λ key late later.
        ap (is_live late) (t.delete_deletes (read w).0 (read w).1 key h)
        ∙ delete_old-is_live (read w).0 late (rows (read w).1 key) later
        ∙ ap (λ m. is_live late (m key)) (t.read_rows w),
    λ key v old row.
        t.delete_deletes (read w).0 (read w).1 key h
        ∙ ap (delete_old (read w).0) (ap (λ m. m key) (t.read_rows w) ∙ row)
        ∙ delete_old_gone (read w).0 v old,
  )
