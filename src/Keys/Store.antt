-- ===== src/Keys/Store.antt =====
-- keys/store_gorm.go: the SQL store of keys. gorm is the parameter `KeyTables`; the two mutexes, which only
-- keep calls of one process apart, are left out: a call is one step.
pub mod Rotation
pub mod Tests
use flow_wallet_api.Prelude.{
  ℕ, ◌≡◌, ◌≢◌, ◌≤◌, Bool, true, Option, none, some, Text, ◌==◌, if◌then◌else◌,
}
use flow_wallet_api.Errors.{GoError, Result, ok, err}
use flow_wallet_api.Datastore.{Connection, gorm_transaction}
use flow_wallet_api.Keys.Types.{Storable, no_storable, ProposalKey, Store}

-- The direction of an ORDER BY, and what it says of an earlier and a later value.
pub data Direction : Type 0 where
  asc desc : Direction

abbrev pub InOrder : Direction → ℕ → ℕ → Type 0
InOrder asc x y = x ≤ y
InOrder desc x y = y ≤ x

-- What GormStore calls on *gorm.DB, for the tables `storable_keys` and `proposal_keys`. `find_one` is WHERE
-- account_address, ORDER BY updated_at in a direction, LIMIT 1 under a row lock, which finds no error but none
-- where no row is there; `find_least_proposal` does the same, ascending, over the first proposal keys; `touch` is Model(&k).Update("updated_at", time.Now()), with k as it leaves it. By id,
-- `owned` says whose row it is and `used` its updated_at; the laws are gorm's documented behaviour.
pub record KeyTables (W : Type 0) : Type 0 where
  pub connection : Connection W
  pub find_one : Text → Direction → W → Result (Option Storable) × W
  pub touch : Storable → W → Option GoError × Storable × W
  pub find_least_proposal : ℕ → W → Result (Option ProposalKey) × W
  pub touch_proposal : ProposalKey → W → Option GoError × ProposalKey × W
  pub count_proposals : W → Result ℕ × W
  pub create_proposal : ProposalKey → W → Option GoError × W
  pub delete_proposals : W → Option GoError × W
  pub now : W → ℕ
  pub owned : W → Text → ℕ → Bool
  pub used : W → ℕ → ℕ
  pub begin_keeps :
      (w : W) → (owned (connection.begin w) ≡ owned w) × (used (connection.begin w) ≡ used w)
  pub commit_persists :
      (w : W)
      → (connection.commit w).0 ≡ none
      → (owned (connection.commit w).1 ≡ owned w) × (used (connection.commit w).1 ≡ used w)
  pub find_keeps :
      (a : Text) (d : Direction) (w : W)
      → (owned (find_one a d w).1 ≡ owned w) × (used (find_one a d w).1 ≡ used w)
  pub find_is_first :
      (a : Text) (d : Direction) (w : W) (k : Storable)
      → (find_one a d w).0 ≡ ok (some k)
      → (owned w a k.id ≡ true)
        × ((id : ℕ) → owned w a id ≡ true → InOrder d (used w k.id) (used w id))
  pub touch_needs_row : (w : W) → (touch no_storable w).0 ≢ none
  pub touch_stamps :
      (k : Storable) (w : W)
      → (touch k w).0 ≡ none
      → ((touch k w).1.id ≡ k.id)
        × (owned (touch k w).2 ≡ owned w)
        × ((id : ℕ) → used (touch k w).2 id ≡ (if id == k.id then now w else used w id))

-- The variable that First or Find has filled: the row, or still the zero value.
abbrev pub row_or_zero : Option Storable → Storable
row_or_zero none = no_storable
row_or_zero (some k) = k

abbrev proposal_or_zero : Option ProposalKey → ProposalKey
proposal_or_zero none = record { id = 0; key_index = 0; updated_at = 0 }
proposal_or_zero (some p) = p

-- The pair of a value and an error.
abbrev returned : {A : Type 0} → Option GoError → A → Result A
returned none a = ok a
returned (some e) a = err e

module _ {W : Type 0} (t : KeyTables W) where
  -- The closure of AccountKey.
  abbrev pub pick_account_key : Text → W → Option GoError × Storable × W
  pick_account_key address w =
      let (r, w') = t.find_one address asc w in
      elim r [ err e ↦ (some e, no_storable, w') | ok k ↦ t.touch (row_or_zero k) w' ]

  -- GormStore.AccountKey
  pub account_key : Text → W → Result Storable × W
  account_key address w =
      let (e, k, w') = gorm_transaction t.connection (pick_account_key address) w in
      (returned e k, w')

  -- The closure of ProposalKeyIndex.
  abbrev pick_proposal_key : ℕ → W → Option GoError × ProposalKey × W
  pick_proposal_key limit_key_count w =
      let (r, w') = t.find_least_proposal limit_key_count w in
      elim r [
        | err e ↦ (some e, proposal_or_zero none, w')
        | ok p ↦ t.touch_proposal (proposal_or_zero p) w'
      ]

  -- GormStore.ProposalKeyIndex
  pub proposal_key_index : ℕ → W → Result ℕ × W
  proposal_key_index limit_key_count w =
      let (e, p, w') = gorm_transaction t.connection (pick_proposal_key limit_key_count) w in
      (returned e p.key_index, w')

  -- GormStore
  unfoldable pub key_store : Store W
  unfolding account_key proposal_key_index
  key_store = record {
    account_key = account_key;
    proposal_key_index = proposal_key_index;
    proposal_key_count = t.count_proposals;
    insert_proposal_key = t.create_proposal;
    delete_all_proposal_keys = t.delete_proposals;
  }
