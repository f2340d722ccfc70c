-- ===== src/ChainEvents/Tests.antt =====
-- Examples for chain_events/: a chain and a status row in memory, with one type of events.
use flow_wallet_api.Prelude.{
  zero, suc, ap, ◌∙◌, Bool, true, Text, text_eq, if◌then◌else◌, ℕ, ◌+◌, ◌-◌, ◌<◌, ◌≤◌, ◌≡◌, refl,
  sym, ◌⊎◌, false, none, some, List, [], ◌∷◌, ◌++◌, arith, bytes,
}
use flow_wallet_api.Errors.{GoError, ok, ok_inj}
use flow_wallet_api.Datastore.{Committed, gorm_transaction}
use flow_wallet_api.ChainEvents.{
  StatusTable, Listener, next_range, run, poll, locked, locked_status, trigger_all, fetch_events,
}
use flow_wallet_api.ChainEvents.Coverage.{next_range_bounds, height_after}
use flow_wallet_api.ChainEvents.Delivery.{selected, flat, occurrences, events_from, IsChain}
use flow_wallet_api.ChainEvents.Stored.{ListenerContract, poll_stored}

-- The stored height, the one that Begin saw, the chain's height, and the events handed on so far.
record Memory : Type 0 where
  stored : ℕ
  stored_at_begin : ℕ
  chain : ℕ
  handed_on : List ℕ

some_e : {e : GoError} {h k : ℕ} → none ≡ some e → h ≡ k
some_e q = ground arith

abbrev status_row : StatusTable Memory
status_row = record {
  connection = record {
    is_sqlite = false;
    begin = λ w. record w { stored_at_begin = w.stored };
    rollback = λ w. record w { stored = w.stored_at_begin };
    commit = λ w. (none, w);
  };
  first_or_create = λ w. (ok w.stored, w);
  save = λ h w. (none, record w { stored = h });
  height = λ w. w.stored;
  height_at_begin = λ w. w.stored_at_begin;
  begin_keeps = λ w. refl;
  begin_marks = λ w. refl;
  commit_persists = λ w h. refl;
  commit_fails = λ w {e} h. some_e {e = e} h;
  rollback_restores = λ w. refl;
  first_or_create_reads = λ w h r. sym (ok_inj r);
  first_or_create_keeps = λ w. refl;
  first_or_create_marks = λ w. refl;
  save_writes = λ h w r. refl;
  save_fails = λ h w {e} r. some_e {e = e} r;
  save_marks = λ h w. refl;
}

-- Each block has one event, which is its height.
blocks : ℕ → ℕ → List (List ℕ)
blocks start zero = []
blocks start (suc n) = (start ∷ []) ∷ blocks (start + 1) n

abbrev answer : Text → ℕ → ℕ → List (List ℕ)
answer t start end_height =
    if text_eq t (bytes "Deposit") then blocks start (end_height + 1 - start) else []

abbrev listener : Listener Memory ℕ
listener = record {
  table = status_row;
  get_latest_block_height = λ w. (ok w.chain, w);
  get_events = λ t start end_height w. (ok (answer t start end_height), w);
  get_types = λ w. (ok (bytes "Deposit" ∷ []), w);
  trigger = λ e w. record w { handed_on = w.handed_on ++ (e ∷ []) };
  max_blocks = 2;
  starting_height = 5;
  system_service = none;
}

abbrev contract : ListenerContract listener
contract = record {
  leaves_height = record {
    latest_leaves = λ w. refl;
    types_leaves = λ w. refl;
    events_leaves = λ t start end_height w. refl;
    trigger_leaves = λ e w. refl;
  };
  leaves_mark = record {
    latest_leaves = λ w. refl;
    types_leaves = λ w. refl;
    events_leaves = λ t start end_height w. refl;
    trigger_leaves = λ e w. refl;
  };
}

abbrev ahead : Memory
ahead = record { stored = 4; stored_at_begin = 0; chain = 9; handed_on = [] }

polled_once :
    ((locked_status listener (poll listener) ahead).1.stored ≡ 7)
    × ((locked_status listener (poll listener) ahead).1.handed_on ≡ 5 ∷ 6 ∷ 7 ∷ [])
unfolding locked_status locked poll next_range run fetch_events trigger_all gorm_transaction blocks
    text_eq
polled_once = (refl, refl)

next_range_bounds_example :
    (end_height : ℕ) × (next_range 2 4 9 ≡ some (5, end_height))
    × (4 < end_height)
    × (end_height ≤ 9)
    × (end_height - 4 ≤ 3)
    × (4 + 2 + 1 ≤ 9 → end_height - 4 ≡ 3)
next_range_bounds_example = next_range_bounds 2 4 9 (omega arith) (omega arith)

abbrev every : ℕ → Bool
every e = true

blocks_lem :
    (start n : ℕ) → selected every (flat (blocks start n)) ≡ events_from (λ h. h ∷ []) start n
unfolding selected flat blocks events_from
blocks_lem start zero = refl
blocks_lem start (suc n) = ap (λ r. start ∷ r) (blocks_lem (start + 1) n)

answer_lem :
    (start end_height : ℕ) (bs : List (List ℕ))
    → ok (answer (bytes "Deposit") start end_height) ≡ ok bs
    → selected every (flat bs) ≡ events_from (λ h. h ∷ []) start (end_height + 1 - start)
unfolding text_eq
answer_lem start end_height bs h =
    ap (λ b. selected every (flat b)) (sym (ok_inj h)) ∙ blocks_lem start (end_height + 1 - start)

other_lem :
    (t : Text) (start end_height : ℕ) (bs : List (List ℕ))
    → text_eq t (bytes "Deposit") ≡ false
    → ok (answer t start end_height) ≡ ok bs
    → selected every (flat bs) ≡ []
unfolding selected flat
other_lem t start end_height bs other h =
    ap (λ b. selected every (flat b)) (sym (ok_inj h)) ∙ rw other refl

once_lem :
    (ts : List Text) → ok (bytes "Deposit" ∷ []) ≡ ok ts → occurrences (bytes "Deposit") ts ≡ 1
unfolding text_eq
once_lem ts h = ap (occurrences (bytes "Deposit")) (sym (ok_inj h))

abbrev blocks_of_one : IsChain listener (bytes "Deposit")
blocks_of_one = record {
  events_at = λ h. h ∷ [];
  is_kind = every;
  handed_on = λ w. w.handed_on;
  gets = λ start end_height w bs h. answer_lem start end_height bs h;
  gets_other = λ t start end_height w bs other h. other_lem t start end_height bs other h;
  types_once = λ w ts h. once_lem ts h;
  triggers = λ e w. refl;
  latest_keeps = λ w. refl;
  types_keeps = λ w. refl;
  events_keeps = λ t start end_height w. refl;
}

-- Two polls, with a row that has changed in between.
abbrev between : Memory
between = record ahead { stored = 7; handed_on = 5 ∷ 6 ∷ 7 ∷ [] }

poll_stored_example :
    ((u : Memory) × (latest : ℕ) × ((locked_status listener (poll listener) ahead).0 ≡ none)
      × (ok u.chain ≡ ok latest)
      × (((locked_status listener (poll listener) ahead).1.stored ≡ height_after 2 4 latest)
          ⊎ ((¬ (Committed status_row.connection (locked listener (poll listener)) ahead))
              × ((locked_status listener (poll listener) ahead).1.stored ≡ 4))))
    ⊎ ((e : GoError) × ((locked_status listener (poll listener) ahead).0 ≡ some e)
        × ((locked_status listener (poll listener) ahead).1.stored ≡ 4))
poll_stored_example = poll_stored listener contract ahead
