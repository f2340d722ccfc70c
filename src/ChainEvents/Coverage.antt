-- ===== src/ChainEvents/Coverage.antt =====
-- The heights that the listener's polls fetch (the closure in Listener.Start, chain_events/listener.go).
use flow_wallet_api.Prelude.{
  ℕ, ◌+◌, ◌-◌, ◌^◌, ◌≤◌, ◌<◌, ◌≡◌, refl, inl, inr, false, none, some, arith, ltb, Option-cases,
}
use flow_wallet_api.Errors.{GoError, ok, Result-cases}
use flow_wallet_api.ChainEvents.{min, next_range, Listener, poll}

next_range_unwrapped :
    (max_blocks height latest : ℕ)
    → latest + max_blocks + 1 < 2 ^ 64
    → height < latest
    → next_range max_blocks height latest ≡ some (height + 1, min latest (height + 1 + max_blocks))
unfolding next_range
next_range_unwrapped max_blocks height latest small ahead = ground arith

-- If the chain is ahead and heights do not wrap around, a poll's range starts right behind the last
-- height, ends behind it and on the chain, spans at most max_blocks + 1 heights, and exactly that
-- many when the chain is far ahead.
pub next_range_bounds :
    (max_blocks height latest : ℕ)
    → latest + max_blocks + 1 < 2 ^ 64
    → height < latest
    → (end_height : ℕ) × (next_range max_blocks height latest ≡ some (height + 1, end_height))
      × (height < end_height)
      × (end_height ≤ latest)
      × (end_height - height ≤ max_blocks + 1)
      × (height + max_blocks + 1 ≤ latest → end_height - height ≡ max_blocks + 1)
unfolding min
next_range_bounds max_blocks height latest small ahead = (
  min latest (height + 1 + max_blocks),
  next_range_unwrapped max_blocks height latest small ahead,
  ground arith,
  ground arith,
  ground arith,
  λ far. ground arith,
)

-- The height after a poll of a chain that is at `latest`.
abbrev pub height_after : ℕ → ℕ → ℕ → ℕ
height_after max_blocks height latest = elim (next_range max_blocks height latest) [
  | none ↦ height
  | some r ↦ r.1
]

pub next_range_level :
    (max_blocks height latest : ℕ)
    → ltb height latest ≡ false
    → next_range max_blocks height latest ≡ none
unfolding next_range
next_range_level max_blocks height latest level = rw level refl

module _ {W E : Type 0} (l : Listener W E) where
  open l use {get_latest_block_height, max_blocks}

  -- A poll that fails leaves the height it was given.
  pub poll_fails :
      (height : ℕ) (w : W) {e : GoError}
      → (poll l height w).0 ≡ some e
      → (poll l height w).1 ≡ height
  unfolding poll
  poll_fails height w h = elim (Result-cases (get_latest_block_height w).0) [
    | inr (x, r) ↦ rw (r, poll) refl
    | inl (latest, r) ↦ elim (Option-cases (next_range max_blocks height latest)) [
      | inl e ↦ rw (r, poll) (rw e refl)
      | inr (range, e) ↦ ground arith
    ]
  ]

  -- A poll that succeeds has learned where the chain is, and leaves the height that follows from it.
  pub poll_ok :
      (height : ℕ) (w : W)
      → (poll l height w).0 ≡ none
      → (latest : ℕ) × ((get_latest_block_height w).0 ≡ ok latest)
        × ((poll l height w).1 ≡ height_after max_blocks height latest)
  unfolding poll
  poll_ok height w h = elim (Result-cases (get_latest_block_height w).0) [
    | inr (x, r) ↦ ground arith
    | inl (latest, r) ↦ elim (Option-cases (next_range max_blocks height latest)) [
      | inl e ↦ (latest, r, rw (r, poll) (rw (e, height_after) refl))
      | inr (range, e) ↦ (latest, r, ground arith)
    ]
  ]
