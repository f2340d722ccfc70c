-- ===== src/ChainEvents/Status.antt =====
-- LockedStatus (chain_events/store_gorm.go) and the stored height.
use flow_wallet_api.Prelude.{
  ℕ, ◌≡◌, refl, sym, ap, ◌∙◌, ◌⊎◌, inl, inr, none, some, arith, Bool-cases,
}
use flow_wallet_api.Errors.{GoError, Result-cases}
use flow_wallet_api.Datastore.{
  started, gorm_transaction_result, Committed, gorm_transaction_commits, gorm_transaction_ends,
  gorm_transaction_fails,
}
use flow_wallet_api.ChainEvents.{OnStatus, Listener, locked, locked_status}

module _ {W E : Type 0} (l : Listener W E) (fn : OnStatus W)
    (fn_keeps : (h : ℕ) (w : W) → l.table.height (fn h w).2 ≡ l.table.height w)
    (fn_marks : (h : ℕ) (w : W)
      → l.table.height_at_begin (fn h w).2 ≡ l.table.height_at_begin w) where
  open l use {table}
  open table use {connection, height, height_at_begin, first_or_create, save}

  locked_ok :
      (w : W)
      → (locked l fn w).0 ≡ none
      → (u : W) × ((fn (height w) u).0 ≡ none) × (height (locked l fn w).2 ≡ (fn (height w) u).1)
  unfolding locked
  locked_ok w done = elim (Result-cases (first_or_create w).0) [
    | inr (x, r) ↦ ground arith
    | inl (h, r) ↦
        let u = (first_or_create w).1 in
        let same = table.first_or_create_reads w h r in
        let ran : (fn h u).0 ≡ none = ground arith in
        let saved : (save (fn h u).1 (fn h u).2).0 ≡ none = ground arith in
        let left : height (locked l fn w).2 ≡ (fn h u).1 =
          ground (arith, table.save_writes (fn h u).1 (fn h u).2) in
        (u, ap (λ k. (fn k u).0) (sym same) ∙ ran, left ∙ ap (λ k. (fn k u).1) same)
  ]

  locked_fails :
      (w : W) {e : GoError} → (locked l fn w).0 ≡ some e → height (locked l fn w).2 ≡ height w
  unfolding locked
  locked_fails w {e} failed = elim (Result-cases (first_or_create w).0) [
    | inr (x, r) ↦ rw (r, locked) (table.first_or_create_keeps w)
    | inl (h, r) ↦
        let u = (first_or_create w).1 in
        ground (
          arith,
          table.first_or_create_keeps w,
          fn_keeps h u,
          table.save_fails (fn h u).1 (fn h u).2 {e = e},
        )
  ]

  locked_marks : (w : W) → height_at_begin (locked l fn w).2 ≡ height_at_begin w
  unfolding locked
  locked_marks w = elim (Result-cases (first_or_create w).0) [
    | inr (x, r) ↦ rw (r, locked) (table.first_or_create_marks w)
    | inl (h, r) ↦
        let u = (first_or_create w).1 in
        ground (
          arith,
          table.first_or_create_marks w,
          fn_marks h u,
          table.save_marks (fn h u).1 (fn h u).2,
        )
  ]

  started_height : (w : W) → height (started connection w) ≡ height w
  started_height w = elim (Bool-cases connection.is_sqlite) [
    | inl e ↦ rw e refl
    | inr e ↦ rw e (table.begin_keeps w)
  ]

  -- A LockedStatus that fails leaves the stored height as it was.
  pub locked_status_fails :
      (w : W) {e : GoError}
      → (locked_status l fn w).0 ≡ some e
      → height (locked_status l fn w).1 ≡ height w
  unfolding locked_status
  locked_status_fails w {e} failed =
      let result = gorm_transaction_result connection (locked l fn) w in
      let failed' : (locked l fn (started connection w)).0 ≡ some e = sym result.0 ∙ failed in
      gorm_transaction_fails connection (locked l fn) height w {e = e}
        (λ sqlite. locked_fails w {e = e} (ground (arith, failed')))
        (table.rollback_restores _ ∙ locked_marks (connection.begin w) ∙ table.begin_marks w)
        failed'

  -- One that succeeds has run the function on the stored height, and stores what it has left, or nothing where
  -- its COMMIT has failed, whose error is dropped.
  pub locked_status_ok :
      (w : W)
      → (locked_status l fn w).0 ≡ none
      → (u : W) × ((fn (height w) u).0 ≡ none)
        × (Committed connection (locked l fn) w
            → height (locked_status l fn w).1 ≡ (fn (height w) u).1)
        × ((height (locked_status l fn w).1 ≡ (fn (height w) u).1)
            ⊎ (height (locked_status l fn w).1 ≡ height w))
  unfolding locked_status
  locked_status_ok w done =
      let result = gorm_transaction_result connection (locked l fn) w in
      let done' : (locked l fn (started connection w)).0 ≡ none = sym result.0 ∙ done in
      let (u, ran, left) = locked_ok (started connection w) done' in
      let same = started_height w in
      let stored : height (locked l fn (started connection w)).2 ≡ (fn (height w) u).1 =
        left ∙ ap (λ h. (fn h u).1) same in
      (
        u,
        ap (λ h. (fn h u).0) (sym same) ∙ ran,
        λ committed.
            gorm_transaction_commits connection (locked l fn) height w table.commit_persists
              committed done'
            ∙ stored,
        elim (gorm_transaction_ends connection (locked l fn) height w height_at_begin
            table.commit_persists (λ v e lost. table.commit_fails v {e = e} lost) done') [
              | inl kept ↦ inl (kept ∙ stored)
              | inr undone ↦ inr (undone ∙ locked_marks (connection.begin w) ∙ table.begin_marks w)
            ],
      )
