-- ===== src/Keys/Store/Tests.antt =====
-- Examples for the SQL store of keys: a table with two keys of one account, whose world is the clock and the keys'
-- last uses.
use flow_wallet_api.Prelude.{
  ℕ, suc, ◌≡◌, subst, ◌≢◌, refl, Bool, true, false, Option, none, some, [], Text, bytes, leb, ◌==◌,
  ◌||◌, ==_iff, arith, Bool-cases, inl, inr, if◌then◌else◌, some_inj,
}
use flow_wallet_api.Errors.{GoError, plain, ok, ok_inj}
use flow_wallet_api.Datastore.{gorm_transaction}
use flow_wallet_api.Keys.Types.{Storable, no_storable}
use flow_wallet_api.Keys.Store.{KeyTables, Direction, asc, desc, InOrder, account_key}
use flow_wallet_api.Keys.Store.Rotation.{account_key_rotates}

pub record World : Type 0 where
  pub clock : ℕ
  pub first_use : ℕ
  pub second_use : ℕ

abbrev key : ℕ → Storable
key id = record no_storable { id = id; index = id }

abbrev last_use : World → ℕ → ℕ
last_use w id = if id == 1 then w.first_use else if id == 2 then w.second_use else 0

abbrev is_there : ℕ → Bool
is_there id = (id == 1) || (id == 2)

abbrev owned_by : World → Text → ℕ → Bool
owned_by w a id = is_there id

abbrev first_in : Direction → World → ℕ
first_in asc w = if leb w.first_use w.second_use then 1 else 2
first_in desc w = if leb w.first_use w.second_use then 2 else 1

-- An update of a row: only the two rows that are there.
abbrev stamp : Storable → World → Option GoError × Storable × World
stamp k w =
    if k.id == 1
    then (none, k, record w { first_use = w.clock })
    else if k.id == 2
    then (none, k, record w { second_use = w.clock })
    else (some (plain (bytes "WHERE conditions required")), k, w)

first_there : (d : Direction) (w : World) → is_there (first_in d w) ≡ true
first_there asc w = ground arith
first_there desc w = ground arith

first_lem :
    (d : Direction) (w : World) (id : ℕ)
    → is_there id ≡ true
    → InOrder d (last_use w (first_in d w)) (last_use w id)
first_lem asc w id h = ground arith
first_lem desc w id h = ground arith

same_use :
    (w : World) (id : ℕ)
    → last_use (record w { first_use = w.clock }) id ≡ (if id == 1 then w.clock else last_use w id)
same_use w id = ground arith

same_other_use :
    (w : World) (id : ℕ)
    → last_use (record w { second_use = w.clock }) id ≡ (if id == 2 then w.clock else last_use w id)
same_other_use w id = ground arith

stamp_stamps :
    (k : Storable) (w : World)
    → (stamp k w).0 ≡ none
    → ((stamp k w).1.id ≡ k.id)
      × (owned_by (stamp k w).2 ≡ owned_by w)
      × ((id : ℕ) → last_use (stamp k w).2 id ≡ (if id == k.id then w.clock else last_use w id))
stamp_stamps k w h = elim (Bool-cases (k.id == 1)) [
  | inl e ↦
      let one : k.id ≡ 1 = (==_iff k.id 1).0 e in
      (rw e refl, refl, λ id. rw (e, one) (same_use w id))
  | inr e ↦ elim (Bool-cases (k.id == 2)) [
    | inl f ↦
        let two : k.id ≡ 2 = (==_iff k.id 2).0 f in
        (rw e (rw f refl), refl, λ id. rw (e, f) (rw two (same_other_use w id)))
    | inr f ↦ absurd (ground arith)
  ]
]

some_differs : (w : World) → (stamp no_storable w).0 ≢ none
some_differs w h = ground arith

abbrev table : KeyTables World
table = record {
  connection = record {
    is_sqlite = false;
    begin = λ w. w;
    rollback = λ w. w;
    commit = λ w. (none, w);
  };
  find_one = λ a d w. (ok (some (key (first_in d w))), record w { clock = suc w.clock });
  touch = stamp;
  find_least_proposal = λ limit w. (ok none, w);
  touch_proposal = λ p w. (none, p, w);
  count_proposals = λ w. (ok 0, w);
  create_proposal = λ p w. (none, w);
  delete_proposals = λ w. (none, w);
  now = λ w. w.clock;
  owned = owned_by;
  used = last_use;
  begin_keeps = λ w. (refl, refl);
  commit_persists = λ w h. (refl, refl);
  find_keeps = λ a d w. (refl, refl);
  find_is_first = λ a d w k h.
      let same : key (first_in d w) ≡ k = some_inj (ok_inj h) in
      subst
        (λ s.
          (is_there s.id ≡ true)
          × ((id : ℕ) → is_there id ≡ true → InOrder d (last_use w s.id) (last_use w id)))
        same (first_there d w, first_lem d w);
  touch_needs_row = some_differs;
  touch_stamps = stamp_stamps;
}

abbrev before : World
before = record { clock = 10; first_use = 3; second_use = 7 }

account_key_rotates_example : ((key 2).id == (key 1).id) ≡ false
unfolding account_key gorm_transaction
account_key_rotates_example =
    account_key_rotates table [] before (key 1) (key 2) 2 refl (inr refl) refl refl refl
      (omega arith)
