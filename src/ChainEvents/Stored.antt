-- ===== src/ChainEvents/Stored.antt =====
-- What a poll and initHeight leave in chain_events_status (chain_events/listener.go).
use flow_wallet_api.Prelude.{
  ℕ, ◌-◌, ◌<◌, ◌≤◌, ◌≡◌, refl, ◌∙◌, ◌⊎◌, inl, inr, none, some, List, [], ◌∷◌, arith, Option-cases,
  Text,
}
use flow_wallet_api.Errors.{GoError, ok, Result-cases}
use flow_wallet_api.Datastore.{Committed, Committed-cases}
use flow_wallet_api.ChainEvents.{
  Listener, append_blocks, next_range, fetch_events, trigger_all, run, poll, locked, locked_status,
  init_status, init_height,
}
use flow_wallet_api.ChainEvents.Coverage.{height_after, poll_ok}
use flow_wallet_api.ChainEvents.Status.{locked_status_ok, locked_status_fails}

-- The Flow client and the event handlers leave a view of the world alone.
pub record Leaves {W E : Type 0} (l : Listener W E) (view : W → ℕ) : Type 0 where
  pub latest_leaves : (w : W) → view (l.get_latest_block_height w).1 ≡ view w
  pub types_leaves : (w : W) → view (l.get_types w).1 ≡ view w
  pub events_leaves :
      (t : Text) (start end_height : ℕ) (w : W)
      → view (l.get_events t start end_height w).1 ≡ view w
  pub trigger_leaves : (e : E) (w : W) → view (l.trigger e w) ≡ view w

-- They write no row of chain_events_status, and begin no transaction on it.
pub record ListenerContract {W E : Type 0} (l : Listener W E) : Type 0 where
  pub leaves_height : Leaves l l.table.height
  pub leaves_mark : Leaves l l.table.height_at_begin

module _ {W E : Type 0} (l : Listener W E) (view : W → ℕ) (leaves : Leaves l view) where
  open leaves use {latest_leaves, types_leaves, events_leaves, trigger_leaves}

  trigger_all_leaves : (es : List E) (w : W) → view (trigger_all l es w) ≡ view w
  unfolding trigger_all
  trigger_all_leaves [] w = refl
  trigger_all_leaves (e ∷ es) w = trigger_all_leaves es (l.trigger e w) ∙ trigger_leaves e w

  fetch_events_leaves :
      (start end_height : ℕ) (ts : List Text) (events : List E) (w : W)
      → view (fetch_events l start end_height ts events w).1 ≡ view w
  unfolding fetch_events
  fetch_events_leaves start end_height [] events w = refl
  fetch_events_leaves start end_height (t ∷ ts) events w =
      let w' = (l.get_events t start end_height w).1 in
      elim (Result-cases (l.get_events t start end_height w).0) [
        | inr (x, e) ↦ rw (e, fetch_events) (events_leaves t start end_height w)
        | inl (blocks, e) ↦
            rw (e, fetch_events)
              (fetch_events_leaves start end_height ts (append_blocks events blocks) w'
                ∙ events_leaves t start end_height w)
      ]

  run_leaves : (start end_height : ℕ) (w : W) → view (run l start end_height w).1 ≡ view w
  unfolding run
  run_leaves start end_height w = elim (Result-cases (l.get_types w).0) [
    | inr (x, e) ↦ rw (e, run) (types_leaves w)
    | inl (ts, e) ↦
        let w' = (l.get_types w).1 in
        let fetched = fetch_events l start end_height ts [] w' in
        let same = fetch_events_leaves start end_height ts [] w' ∙ types_leaves w in
        elim (Result-cases fetched.0) [
          | inr (x, r) ↦ rw (e, run) (rw r same)
          | inl (es, r) ↦ rw (e, run) (rw r (trigger_all_leaves es fetched.1 ∙ same))
        ]
  ]

  poll_leaves : (height : ℕ) (w : W) → view (poll l height w).2 ≡ view w
  unfolding poll
  poll_leaves height w = elim (Result-cases (l.get_latest_block_height w).0) [
    | inr (x, r) ↦ rw (r, poll) (latest_leaves w)
    | inl (latest, r) ↦
        let w' = (l.get_latest_block_height w).1 in
        elim (Option-cases (next_range l.max_blocks height latest)) [
          | inl e ↦ rw (r, poll) (rw e (latest_leaves w))
          | inr (range, e) ↦ ground (arith, latest_leaves w, run_leaves range.0 range.1 w')
        ]
  ]

  init_status_leaves : (height : ℕ) (w : W) → view (init_status l height w).2 ≡ view w
  unfolding init_status
  init_status_leaves height w = ground (arith, latest_leaves w)

module _ {W E : Type 0} (l : Listener W E) (c : ListenerContract l) where
  open l use {table, get_latest_block_height, max_blocks, starting_height}
  open table use {height}
  open c use {leaves_height, leaves_mark}

  -- A poll under the lock either succeeds, and then the height that follows from the stored one and
  -- a height that the client has reported is stored or, where the COMMIT has failed, the old one
  -- may be; or it fails and leaves the stored height, provided that client and handlers leave the
  -- status row alone.
  pub poll_stored :
      (w : W)
      → ((u : W) × (latest : ℕ) × ((locked_status l (poll l) w).0 ≡ none)
          × ((get_latest_block_height u).0 ≡ ok latest)
          × ((height (locked_status l (poll l) w).1 ≡ height_after max_blocks (height w) latest)
              ⊎ ((¬ (Committed table.connection (locked l (poll l)) w))
                  × (height (locked_status l (poll l) w).1 ≡ height w))))
        ⊎ ((e : GoError) × ((locked_status l (poll l) w).0 ≡ some e)
            × (height (locked_status l (poll l) w).1 ≡ height w))
  poll_stored w = elim (Option-cases (locked_status l (poll l) w).0) [
    | inr (e, failed) ↦ inr (
      e,
      failed,
      locked_status_fails l (poll l) (poll_leaves l height leaves_height)
          (poll_leaves l table.height_at_begin leaves_mark) w {e = e} failed,
    )
    | inl done ↦
        let (u, ran, left, ends) =
          locked_status_ok l (poll l) (poll_leaves l height leaves_height)
            (poll_leaves l table.height_at_begin leaves_mark) w done in
        let (latest, known, after) = poll_ok l (height w) u ran in
        inl (
          u,
          latest,
          done,
          known,
          elim (Committed-cases table.connection (locked l (poll l)) w) [
            | inl committed ↦ inl (left committed ∙ after)
            | inr lost ↦ elim ends [
              | inl kept ↦ inl (kept ∙ after)
              | inr undone ↦ inr (lost, undone)
            ]
          ],
        )
  ]

  init_status_ok :
      (h : ℕ) (u : W)
      → (init_status l h u).0 ≡ none
      → (h < starting_height - 1 → (init_status l h u).1 ≡ starting_height - 1)
        × (starting_height - 1 ≤ h → 0 < h → (init_status l h u).1 ≡ h)
        × (h ≡ 0
            → starting_height - 1 ≡ 0
            → (get_latest_block_height u).0 ≡ ok (init_status l h u).1)
  unfolding init_status
  init_status_ok h u done = elim (Result-cases (get_latest_block_height u).0) [
    | inr (x, r) ↦ (λ a. ground arith, λ a b. ground arith, λ a b. ground arith)
    | inl (latest, r) ↦ (λ a. ground arith, λ a b. ground arith, λ a b. ground arith)
  ]

  -- A successful initHeight whose COMMIT has not failed raises the stored height to the one before the configured first block,
  -- never lowers it, and stores a height that the client has reported where both are 0, provided
  -- that client and handlers leave the status row alone.
  init_height_stored :
      (w : W)
      → (init_height l w).0 ≡ none
      → Committed table.connection (locked l (init_status l)) w
      → (height w < starting_height - 1 → height (init_height l w).1 ≡ starting_height - 1)
        × (starting_height - 1 ≤ height w → 0 < height w → height (init_height l w).1 ≡ height w)
        × (height w ≡ 0
            → starting_height - 1 ≡ 0
            → (u : W) × ((get_latest_block_height u).0 ≡ ok (height (init_height l w).1)))
  unfolding init_height
  init_height_stored w done committed =
      let (u, ran, kept, ends) =
        locked_status_ok l (init_status l) (init_status_leaves l height leaves_height)
          (init_status_leaves l table.height_at_begin leaves_mark) w done in
      let left = kept committed in
      let (low, high, empty) = init_status_ok (height w) u ran in
      (λ a. left ∙ low a, λ a b. left ∙ high a b, λ a b. (u, rw left (empty a b)))
