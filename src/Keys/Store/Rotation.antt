-- ===== src/Keys/Store/Rotation.antt =====
-- The choice of a key in AccountKey (keys/store_gorm.go).
use flow_wallet_api.Prelude.{
  ℕ, ◌≡◌, ◌≤◌, ◌<◌, refl, sym, ap, ◌∙◌, inl, inr, true, false, Option, none, some, arith, Text,
  ◌==◌, Bool-cases, if◌then◌else◌,
}
use flow_wallet_api.Errors.{GoError, ok, ok_inj, Result-cases}
use flow_wallet_api.Datastore.{
  started, gorm_transaction, gorm_transaction_result, gorm_transaction_commits, Committed,
}
use flow_wallet_api.Keys.Types.{Storable}
use flow_wallet_api.Keys.Store.{KeyTables, asc, returned, pick_account_key, account_key}

module _ {W : Type 0} (t : KeyTables W) where
  started_keeps :
      (w : W)
      → (t.owned (started t.connection w) ≡ t.owned w)
        × (t.used (started t.connection w) ≡ t.used w)
  started_keeps w = elim (Bool-cases t.connection.is_sqlite) [
    | inl e ↦ rw e (refl, refl)
    | inr e ↦ rw e (t.begin_keeps w)
  ]

  -- The key with this id is the account's and one of those used the longest time ago.
  abbrev pub IsLeastUse : Text → W → ℕ → Type 0
  IsLeastUse a w k =
      (t.owned w a k ≡ true) × ((id : ℕ) → t.owned w a id ≡ true → t.used w k ≤ t.used w id)

  -- From `w` to `w'` the last use of the key `k` alone has changed, to the time `n`.
  abbrev pub IsStamped : W → ℕ → ℕ → W → Type 0
  IsStamped w k n w' =
      (t.owned w' ≡ t.owned w) × ((id : ℕ) → t.used w' id ≡ (if id == k then n else t.used w id))

  -- The time at which AccountKey has found its row.
  abbrev pub found_time : Text → W → ℕ
  found_time a w = t.now (t.find_one a asc (started t.connection w)).1

  pick_lem :
      (a : Text) (w : W)
      → (pick_account_key t a w).0 ≡ none
      → IsLeastUse a w (pick_account_key t a w).1.id
        × IsStamped w
            (pick_account_key t a w).1.id
            (t.now (t.find_one a asc w).1)
            (pick_account_key t a w).2
  pick_lem a w h = elim (Result-cases (t.find_one a asc w).0) [
    | inr (x, r) ↦ ground arith
    | inl (none, r) ↦ absurd (t.touch_needs_row (t.find_one a asc w).1 (ground arith))
    | inl (some k, r) ↦
        let (owned, used) = t.find_keeps a asc w in
        let (mine, least) = t.find_is_first a asc w k r in
        let w' = (t.find_one a asc w).1 in
        let touched : (t.touch k w').0 ≡ none = ground arith in
        let (same, kept, stamped) = t.touch_stamps k w' touched in
        rw (r, pick_account_key)
          (rw same (
            (mine, least),
            (kept ∙ owned, λ id. stamped id ∙ ap (λ f. if id == k.id then t.now w' else f id) used),
          ))
  ]

  returned_ok :
      {A : Type 0} (e : Option GoError) (x a : A) → returned e x ≡ ok a → (e ≡ none) × (x ≡ a)
  returned_ok none x a h = (refl, ok_inj h)
  returned_ok (some e) x a h = absurd (ground arith)

  -- A key that AccountKey returns belongs to the account and is one of those used the longest time ago. Once
  -- its COMMIT has not failed, no owner and no other key's last use is changed, and its own is the current time.
  pub account_key-IsLeastUse :
      (a : Text) (w : W) (k : Storable)
      → (account_key t a w).0 ≡ ok k
      → IsLeastUse a w k.id
        × (Committed t.connection (pick_account_key t a) w
            → IsStamped w k.id (found_time a w) (account_key t a w).1)
  unfolding account_key
  account_key-IsLeastUse a w k h =
      let c = t.connection in
      let fn = pick_account_key t a in
      let (error, left) = gorm_transaction_result c fn w in
      let (fine, found) = returned_ok (gorm_transaction c fn w).0 (gorm_transaction c fn w).1 k h in
      let ended : (fn (started c w)).0 ≡ none = sym error ∙ fine in
      let ((mine, least), (owned, used)) = pick_lem a (started c w) ended in
      let (owned₀, used₀) = started_keeps w in
      let same : (fn (started c w)).1.id ≡ k.id = ap (λ s. s.id) (sym left ∙ found) in
      (
        (rw (sym same, sym owned₀) mine, λ id o. rw (sym same, sym used₀) (least id (rw owned₀ o))),
        λ committed.
            let owned₁ =
              gorm_transaction_commits c fn t.owned w (λ u g. (t.commit_persists u g).0) committed
                ended in
            let used₁ =
              gorm_transaction_commits c fn t.used w (λ u g. (t.commit_persists u g).1) committed
                ended in
            (
              owned₁ ∙ owned ∙ owned₀,
              λ id.
                  ap (λ f. f id) used₁
                  ∙ used id
                  ∙ ap (λ i. if id == i then found_time a w else t.used (started c w) id) same
                  ∙ ap (λ f. if id == k.id then found_time a w else f id) used₀,
            ),
      )

  -- Two successful calls of AccountKey in a row return different keys, if the COMMIT of the first
  -- has not failed and the account has another key that was last used before the time at which the
  -- first call has found its key.
  pub account_key_rotates :
      (a : Text) (w : W) (k k' : Storable) (id : ℕ)
      → (account_key t a w).0 ≡ ok k
      → Committed t.connection (pick_account_key t a) w
      → (account_key t a (account_key t a w).1).0 ≡ ok k'
      → t.owned w a id ≡ true
      → (id == k.id) ≡ false
      → t.used w id < found_time a w
      → (k'.id == k.id) ≡ false
  account_key_rotates a w k k' id first committed second mine other older =
      let w' = (account_key t a w).1 in
      let (owned, used) = (account_key-IsLeastUse a w k first).1 committed in
      let (_, least) = (account_key-IsLeastUse a w' k' second).0 in
      let bound : t.used w' k'.id ≤ t.used w' id = least id (ap (λ f. f a id) owned ∙ mine) in
      let kept : t.used w' id ≡ t.used w id = used id ∙ rw other refl in
      elim (Bool-cases (k'.id == k.id)) [
        | inr e ↦ e
        | inl e ↦
            let fresh : t.used w' k'.id ≡ found_time a w = used k'.id ∙ rw e refl in
            absurd (omega arith)
      ]
