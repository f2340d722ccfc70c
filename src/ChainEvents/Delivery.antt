-- ===== src/ChainEvents/Delivery.antt =====
-- What the polls hand to the event handlers (Listener.Start and run, chain_events/listener.go): the events of one
-- type, block by block.
use flow_wallet_api.Prelude.{
  ℕ, zero, suc, ◌+◌, ◌-◌, ◌^◌, ◌≤◌, ◌<◌, ◌≡◌, Bool, false, none, some, List, [], ◌∷◌, ◌++◌, Text,
  text_eq, if◌then◌else◌,
}
use flow_wallet_api.Errors.{GoError, ok}
use flow_wallet_api.ChainEvents.{Listener, poll}

-- The events that a test selects.
unfoldable pub selected : {E : Type 0} → (E → Bool) → List E → List E
selected p [] = []
selected p (e ∷ es) = let rest = selected p es in if p e then e ∷ rest else rest

-- The events of all blocks, as one list.
unfoldable pub flat : {E : Type 0} → List (List E) → List E
flat [] = []
flat (b ∷ bs) = b ++ flat bs

-- How often a type is in a list of types.
abbrev pub occurrences : Text → List Text → ℕ
occurrences kind [] = 0
occurrences kind (t ∷ ts) =
    let rest = occurrences kind ts in if text_eq t kind then suc rest else rest

-- The events of `n` blocks from a height on.
unfoldable pub events_from : {E : Type 0} → (ℕ → List E) → ℕ → ℕ → List E
events_from at start zero = []
events_from at start (suc n) = at start ++ events_from at (start + 1) n

times : {E : Type 0} → ℕ → List E → List E
times zero es = []
times (suc n) es = es ++ times n es

-- A chain whose blocks have these events of the type, and a view of what the handlers have been given: the client
-- answers with the events of the blocks that it is asked for, the registered types name the type once, and no call
-- but `trigger` hands an event on.
pub record IsChain {W E : Type 0} (l : Listener W E) (kind : Text) : Type 0 where
  pub events_at : ℕ → List E
  pub is_kind : E → Bool
  pub handed_on : W → List E
  pub gets :
      (start end_height : ℕ) (w : W) (blocks : List (List E))
      → (l.get_events kind start end_height w).0 ≡ ok blocks
      → selected is_kind (flat blocks) ≡ events_from events_at start (end_height + 1 - start)
  pub gets_other :
      (t : Text) (start end_height : ℕ) (w : W) (blocks : List (List E))
      → text_eq t kind ≡ false
      → (l.get_events t start end_height w).0 ≡ ok blocks
      → selected is_kind (flat blocks) ≡ []
  pub types_once : (w : W) (ts : List Text) → (l.get_types w).0 ≡ ok ts → occurrences kind ts ≡ 1
  pub triggers :
      (e : E) (w : W)
      → handed_on (l.trigger e w) ≡ (if is_kind e then handed_on w ++ (e ∷ []) else handed_on w)
  pub latest_keeps : (w : W) → handed_on (l.get_latest_block_height w).1 ≡ handed_on w
  pub types_keeps : (w : W) → handed_on (l.get_types w).1 ≡ handed_on w
  pub events_keeps :
      (t : Text) (start end_height : ℕ) (w : W)
      → handed_on (l.get_events t start end_height w).1 ≡ handed_on w

module _ {W E : Type 0} (l : Listener W E) (kind : Text) (c : IsChain l kind) where
  open l use {get_latest_block_height, get_events, get_types, trigger, max_blocks}
  open c use {events_at, is_kind, handed_on}

  -- What a poll that succeeds has handed on, and the height that it leaves.
  abbrev pub Delivers : ℕ → W → ℕ → W → Type 0
  Delivers height w height' w' =
      (height ≤ height')
      × (handed_on w' ≡ handed_on w ++ events_from events_at (height + 1) (height' - height))

  -- A sequence of polls, each with the height that the one before has left. Between them the world may change, but
  -- nobody else hands events on.
  pub data Polls (height : ℕ) (w : W) : ℕ → W → Type 0 where
    no_poll : Polls height w height w
    polled :
        {mid : ℕ} {v : W} (latest : ℕ)
        → Polls height w mid v
        → (poll l mid v).0 ≡ none
        → (get_latest_block_height v).0 ≡ ok latest
        → latest + max_blocks + 1 < 2 ^ 64
        → Polls height w (poll l mid v).1 (poll l mid v).2
    poll_failed :
        {mid : ℕ} {v : W} (e : GoError)
        → Polls height w mid v
        → (poll l mid v).0 ≡ some e
        → Polls height w (poll l mid v).1 (poll l mid v).2
    rested :
        {mid : ℕ} {v : W} (u : W)
        → Polls height w mid v
        → handed_on u ≡ handed_on v
        → Polls height w mid u
