-- ===== src/ChainEvents.antt =====
-- chain_events/: the listener that fetches blocks' events in order and hands them to the handlers.
-- Heights are uint64. The Flow client, the table chain_events_status and the handlers are parameters.
pub mod Coverage
pub mod Delivery
pub mod Status
pub mod Stored
pub mod Tests
use flow_wallet_api.Prelude.{
  ℕ, ◌+◌, ◌-◌, ◌%◌, ◌^◌, ◌≡◌, Bool, true, false, ◌&&◌, Option, none, some, List, [], ◌∷◌, ◌++◌,
  Text, bytes, ltb, ◌==◌, if◌then◌else◌,
}
use flow_wallet_api.Errors.{GoError, is_chain_connection_error, Result, ok, err}
use flow_wallet_api.Datastore.{Connection, gorm_transaction}
use flow_wallet_api.System.{SystemService}

abbrev pub u64 : ℕ → ℕ
u64 n = n % 2 ^ 64

-- lib.go
unfoldable pub min : ℕ → ℕ → ℕ
min x y = if ltb y x then y else x

-- What GormStore calls on *gorm.DB for the one row of chain_events_status. `height` is the row's
-- latest_height, 0 if there is no row yet; `height_at_begin` is what a rollback, or a COMMIT that fails, restores.
pub record StatusTable (W : Type 0) : Type 0 where
  pub connection : Connection W
  pub first_or_create : W → Result ℕ × W
  pub save : ℕ → W → Option GoError × W
  pub height : W → ℕ
  pub height_at_begin : W → ℕ
  pub begin_keeps : (w : W) → height (connection.begin w) ≡ height w
  pub begin_marks : (w : W) → height_at_begin (connection.begin w) ≡ height w
  pub commit_persists :
      (w : W) → (connection.commit w).0 ≡ none → height (connection.commit w).1 ≡ height w
  pub commit_fails :
      (w : W) {e : GoError}
      → (connection.commit w).0 ≡ some e
      → height (connection.commit w).1 ≡ height_at_begin w
  pub rollback_restores : (w : W) → height (connection.rollback w) ≡ height_at_begin w
  pub first_or_create_reads : (w : W) (h : ℕ) → (first_or_create w).0 ≡ ok h → h ≡ height w
  pub first_or_create_keeps : (w : W) → height (first_or_create w).1 ≡ height w
  pub first_or_create_marks : (w : W) → height_at_begin (first_or_create w).1 ≡ height_at_begin w
  pub save_writes : (h : ℕ) (w : W) → (save h w).0 ≡ none → height (save h w).1 ≡ h
  pub save_fails :
      (h : ℕ) (w : W) {e : GoError} → (save h w).0 ≡ some e → height (save h w).1 ≡ height w
  pub save_marks : (h : ℕ) (w : W) → height_at_begin (save h w).1 ≡ height_at_begin w

-- The closure that LockedStatus runs: it may fail, and it leaves a new height in the status.
abbrev pub OnStatus : Type 0 → Type 0
OnStatus W = ℕ → W → Option GoError × ℕ × W

-- ListenerImpl, over events of type `E`. `get_events` is GetEventsForHeightRange: the events of each
-- block. `trigger` is ChainEvent.Trigger: every registered handler starts on the event.
pub record Listener (W E : Type 0) : Type 0 where
  pub table : StatusTable W
  pub get_latest_block_height : W → Result ℕ × W
  pub get_events : Text → ℕ → ℕ → W → Result (List (List E)) × W
  pub get_types : W → Result (List Text) × W
  pub trigger : E → W → W
  pub max_blocks : ℕ
  pub starting_height : ℕ
  pub system_service : Option (SystemService W)

-- The inner loop of `run`.
abbrev append_blocks : {E : Type 0} → List E → List (List E) → List E
append_blocks events [] = events
append_blocks events (b ∷ bs) = append_blocks (events ++ b) bs

-- The heights that a poll fetches, both included, when the chain is at `latest`.
unfoldable pub next_range : ℕ → ℕ → ℕ → Option (ℕ × ℕ)
unfolding min
next_range max_blocks height latest =
    if ltb height latest
    then (let start = u64 (height + 1) in some (start, min latest (u64 (start + max_blocks))))
    else none

module _ {W E : Type 0} (l : Listener W E) where
  open l use {
    table, get_latest_block_height, get_events, get_types, trigger, max_blocks, starting_height,
    system_service,
  }

  -- The loop of `run` over the event types.
  pub fetch_events : ℕ → ℕ → List Text → List E → W → Result (List E) × W
  fetch_events start end_height [] events w = (ok events, w)
  fetch_events start end_height (t ∷ ts) events w =
      let (r, w') = get_events t start end_height w in
      elim r [
        | err e ↦ (err e, w')
        | ok blocks ↦ fetch_events start end_height ts (append_blocks events blocks) w'
      ]

  -- The last loop of `run`.
  pub trigger_all : List E → W → W
  trigger_all [] w = w
  trigger_all (e ∷ es) w = trigger_all es (trigger e w)

  -- run
  pub run : ℕ → ℕ → W → Option GoError × W
  run start end_height w =
      let (types, w') = get_types w in
      elim types [
        | err e ↦ (some e, w')
        | ok ts ↦
            let (events, w'') = fetch_events start end_height ts [] w' in
            elim events [ err e ↦ (some e, w'') | ok es ↦ (none, trigger_all es w'') ]
      ]

  -- The closure of the polling loop in Start.
  pub poll : OnStatus W
  poll height w =
      let (r, w') = get_latest_block_height w in
      elim r [
        | err e ↦ (some e, height, w')
        | ok latest ↦ elim (next_range max_blocks height latest) [
          | none ↦ (none, height, w')
          | some (start, end_height) ↦
              let (e, w'') = run start end_height w' in
              elim e [ some x ↦ (some x, height, w'') | none ↦ (none, end_height, w'') ]
        ]
      ]

  -- GormStore.LockedStatus: what runs inside the transaction. The mutex makes the calls of one
  -- process take turns; the row lock does so between processes.
  pub locked : OnStatus W → W → Option GoError × ℕ × W
  locked fn w =
      let (r, w') = table.first_or_create w in
      elim r [
        | err e ↦ (some e, 0, w')
        | ok height ↦
            let (e, height', w'') = fn height w' in
            elim e [
              | some x ↦ (some x, height', w'')
              | none ↦ let (s, w''') = table.save height' w'' in (s, height', w''')
            ]
      ]

  -- GormStore.LockedStatus
  pub locked_status : OnStatus W → W → Option GoError × W
  locked_status fn w =
      let (e, height, w') = gorm_transaction table.connection (locked fn) w in (e, w')

  -- The closure of initHeight.
  pub init_status : OnStatus W
  init_status height w =
      let raised =
        if ltb 0 starting_height && ltb height (starting_height - 1)
        then starting_height - 1
        else height in
      if raised == 0
      then (let (r, w') = get_latest_block_height w in
          elim r [ err e ↦ (some e, raised, w') | ok latest ↦ (none, latest, w') ])
      else (none, raised, w)

  -- initHeight
  pub init_height : W → Option GoError × W
  init_height = locked_status init_status

  -- systemHalted
  pub system_halted : W → Result Bool × W
  system_halted w = elim system_service [ none ↦ (ok false, w) | some s ↦ s.is_halted w ]

  -- What the loop does with the error of a poll: a connection error pauses the system.
  handle_error : Option GoError → W → W
  handle_error none w = w
  handle_error (some e) w =
      if is_chain_connection_error e
      then elim system_service [ none ↦ w | some s ↦ (s.pause w).1 ]
      else w

  -- One tick of the loop in Start.
  pub tick : W → W
  tick w =
      let (r, w') = system_halted w in
      elim r [
        | err e ↦ w'
        | ok halted ↦
            if halted then w' else let (e, w'') = locked_status poll w' in handle_error e w''
      ]
