-- ===== src/Accounts/Keys/Sync.antt =====
-- syncAccountKeyCount: the keys that it saves (accounts/service.go).
use flow_wallet_api.Prelude.{
  ℕ, zero, suc, ◌+◌, ◌-◌, ◌^◌, ◌<◌, ◌≡◌, refl, sym, ap, subst, ◌∙◌, none, List, [], ◌∷◌, ◌++◌, Text,
  length, length-append, ◌⊎◌, arith,
}
use flow_wallet_api.Call.{
  returned, and_then-returned, of_error-returned, deref-returned, returned_inj,
}
use mathlib.Core.List.{append_assoc, append-nil}
use flow_wallet_api.Keys.Types.{Storable}
use flow_wallet_api.Accounts.Types.{Account, ServiceImpl}
use flow_wallet_api.Accounts.Keys.{
  sort_by, next_uint32, storable_index, cloned, clone_loop, add_clones,
}
use flow_wallet_api.Accounts.Keys.Order.{
  Distinct, Ascending, Below, Below-more, snoc-All, last-All, length-sort_by, sort_by-All,
  sort_by-Ascending, snoc-Ascending, last-Below, Ascending-Distinct,
}

module _ {W A Tx E : Type 0} (svc : ServiceImpl W A Tx E) where
  open svc use {store}

  clone_loop-returned :
      (n : ℕ) (source : Storable) (keys keys' : List Storable) (pbks pbks' : List Text) (w w' : W)
      → clone_loop svc n source keys pbks w ≡ returned (keys', pbks') w'
      → Ascending storable_index keys
      → Below storable_index (2 ^ 32 - n) keys
      → Ascending storable_index keys' × (length keys' ≡ length keys + n)
  unfolding clone_loop
  clone_loop-returned zero source keys keys' pbks pbks' w w' h a b =
      let (same, _) = returned_inj h in
      let kept : keys ≡ keys' = ap (λ p. p.0) same in
      (subst (Ascending storable_index) kept a, ap length (sym kept) ∙ omega arith)
  clone_loop-returned (suc n) source keys keys' pbks pbks' w w' h a b =
      let (bare, w₁, _, h₁) = and_then-returned h in
      let (pbk, w₂, _, h₂) = and_then-returned h₁ in
      let (newest, w₃, found, h₃) = and_then-returned h₂ in
      let (last, _) = deref-returned found in
      let new = cloned source (next_uint32 newest.index) in
      let room : newest.index < 2 ^ 32 - suc n =
        last-All storable_index (λ k. k.index < 2 ^ 32 - suc n) keys newest b last in
      let index : next_uint32 newest.index ≡ suc newest.index = omega arith in
      let below : Below storable_index new.index keys =
        Below-more storable_index (suc newest.index) new.index keys (omega arith)
          (last-Below storable_index keys newest a last) in
      let wide = Below-more storable_index (2 ^ 32 - suc n) (2 ^ 32 - n) keys (omega arith) b in
      let (up, size) =
        clone_loop-returned n source (keys ++ (new ∷ [])) keys' (pbks ++ (pbk ∷ [])) pbks' w₃ w' h₃
          (snoc-Ascending storable_index keys new a below)
          (snoc-All storable_index (λ k. k.index < 2 ^ 32 - n) keys new wide (omega arith)) in
      (up, omega (arith, size, length-append keys (new ∷ [])))

  -- The clones have all of the source's fields but its index.
  pub AreClones : Storable → List Storable → Type 0
  AreClones source [] = Unit
  AreClones source (k ∷ ks) =
      ((k.account_address ≡ source.account_address)
        × (k.key_type ≡ source.key_type)
        × (k.value ≡ source.value)
        × (k.public_key ≡ source.public_key)
        × (k.sign_algo ≡ source.sign_algo)
        × (k.hash_algo ≡ source.hash_algo))
      × AreClones source ks

  clone_loop-AreClones :
      (n : ℕ) (source : Storable) (keys keys' : List Storable) (pbks pbks' : List Text) (w w' : W)
      → clone_loop svc n source keys pbks w ≡ returned (keys', pbks') w'
      → (clones : List Storable) × (keys' ≡ keys ++ clones)
        × (length clones ≡ n)
        × AreClones source clones
  unfolding clone_loop AreClones
  clone_loop-AreClones zero source keys keys' pbks pbks' w w' h =
      let (same, _) = returned_inj h in
      ([], sym (ap (λ p. p.0) same) ∙ sym (append-nil keys), refl, tt)
  clone_loop-AreClones (suc n) source keys keys' pbks pbks' w w' h =
      let (bare, w₁, _, h₁) = and_then-returned h in
      let (pbk, w₂, _, h₂) = and_then-returned h₁ in
      let (newest, w₃, _, h₃) = and_then-returned h₂ in
      let new = cloned source (next_uint32 newest.index) in
      let (clones, eq, size, all) =
        clone_loop-AreClones n source (keys ++ (new ∷ [])) keys' (pbks ++ (pbk ∷ [])) pbks' w₃ w'
          h₃ in
      (
        new ∷ clones,
        eq ∙ append_assoc keys (new ∷ []) clones,
        ap suc size,
        ((refl, refl, refl, refl, refl, refl), all),
      )

  -- The store has saved the account with distinct keys: those that it had, by their indices, and `added` clones of
  -- the source behind them, `count` in all.
  pub IsSynced : Account → Storable → ℕ → ℕ → Type 0
  IsSynced a source added count =
      (keys : List Storable) × (v : W) × ((store.save_account (record a { keys = keys }) v).0
        ≡ none)
      × Distinct storable_index keys
      × (length keys ≡ count)
      × (count ≡ length a.keys + added)
      × ((clones : List Storable) × (keys ≡ sort_by storable_index a.keys ++ clones)
          × (length clones ≡ added)
          × AreClones source clones)

  pub add_clones-IsSynced :
      (a : Account) (source : Storable) (n count : ℕ) (id : Text) (w w' : W)
      → add_clones svc a source n w ≡ returned (count, id) w'
      → Distinct storable_index a.keys
      → Below storable_index (2 ^ 32 - n) a.keys
      → IsSynced a source n count
  unfolding add_clones IsSynced
  add_clones-IsSynced a source n count id w w' h distinct room =
      let ((keys, pbks), w₁, looped, h₁) = and_then-returned h in
      let (tx, w₂, _, h₂) = and_then-returned h₁ in
      let (_, w₃, saved, h₃) = and_then-returned h₂ in
      let (same, _) = returned_inj h₃ in
      let (fine, _) = of_error-returned saved in
      let total : length keys ≡ count = ap (λ p. p.0) same in
      let sorted = sort_by storable_index a.keys in
      let (up, size) =
        clone_loop-returned n source sorted keys [] pbks w w₁ looped
          (sort_by-Ascending storable_index a.keys distinct)
          (sort_by-All storable_index (λ k. k.index < 2 ^ 32 - n) a.keys room) in
      (
        keys,
        w₂,
        fine,
        Ascending-Distinct storable_index keys up,
        total,
        omega (arith, size, length-sort_by storable_index a.keys),
        clone_loop-AreClones n source sorted keys [] pbks w w₁ looped,
      )

  -- How the count of syncAccountKeyCount comes about, with `valid` keys on the chain: clones are saved, or the
  -- account already has as many keys or more.
  pub IsMatched : Account → Storable → ℕ → ℕ → ℕ → Type 0
  IsMatched a source valid num count =
      ((valid < num) × IsSynced a source (num - valid) count)
      ⊎ (((num ≡ valid) × (count ≡ num)) ⊎ ((num < valid) × (count ≡ 0)))
