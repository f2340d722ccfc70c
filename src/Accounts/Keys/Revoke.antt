-- ===== src/Accounts/Keys/Revoke.antt =====
-- revokeKey (accounts/service.go): which key it deletes.
use flow_wallet_api.Prelude.{
  ℕ, suc, ◌≤◌, ◌≡◌, sym, ap, ap₂, subst, ◌∙◌, inl, inr, false, none, some, List, [], ◌∷◌, length,
  get_elem?, ◌==◌, ==_iff, arith, Bool-cases,
}
use flow_wallet_api.Errors.{GoError, ok, Result-cases}
use flow_wallet_api.Call.{
  returned, and_then-returned, of_result-returned, of_error-returned, try-returned, returned_inj,
}
use flow_wallet_api.FlowHelpers.{format_address}
use flow_wallet_api.Transactions.Types.{Transaction, general, cadence_value}
use flow_wallet_api.Keys.Types.{Storable}
use flow_wallet_api.Accounts.Types.{Account, ServiceImpl}
use flow_wallet_api.Accounts.Keys.{key_to_delete, create_revoke_key_tx, revoke_key}

key_to_delete_lem :
    (e : GoError) (index : ℕ) (ks : List Storable) (k : Storable)
    → key_to_delete e index ks ≡ ok k
    → (k.index ≡ index) × (n : ℕ) × (get_elem? ks n ≡ some k)
key_to_delete_lem e index [] k h = absurd (ground arith)
key_to_delete_lem e index (x ∷ xs) k h = elim (Result-cases (key_to_delete e index xs)) [
  | inl (later, r) ↦
      let same : later ≡ k = ground arith in
      let (named, n, there) = key_to_delete_lem e index xs k (r ∙ ap ok same) in
      (named, suc n, there)
  | inr (x', r) ↦ elim (Bool-cases (x.index == index)) [
    | inr f ↦ absurd (ground arith)
    | inl f ↦
        let same : x ≡ k = ground arith in
        (ap (λ l. l.index) (sym same) ∙ (==_iff x.index index).0 f, 0, ap some same)
  ]
]

two_or_more :
    (ks : List Storable) (k : Storable) (n : ℕ)
    → (length ks == 1) ≡ false
    → get_elem? ks n ≡ some k
    → 2 ≤ length ks
two_or_more [] k n h there = absurd (ground arith)
two_or_more (x ∷ []) k n h there = absurd (ground arith)
two_or_more (x ∷ y ∷ ks) k n h there = omega arith

module _ {W A Tx E : Type 0} (svc : ServiceImpl W A Tx E) where
  open svc use {store}

  -- The account is as the store has it at `w` and has two keys or more, one of them with the index; a transaction of
  -- the account with the code that removes a key and this index as its one argument was created without an error, and the store has deleted the key.
  pub IsRevoked : A → ℕ → W → Account → Type 0
  IsRevoked address index w a =
      ((store.account (format_address svc.sdk address) w).0 ≡ ok a)
      × (2 ≤ length a.keys)
      × ((k : Storable) × (n : ℕ) × (u v : W) × (tx : Transaction E) × (k.index ≡ index)
          × (get_elem? a.keys n ≡ some k)
          × (svc.create_sync a.address svc.cfg.remove_account_key
                (cadence_value (svc.codec.new_int index) ∷ []) general u
              ≡ (ok tx, v))
          × ((store.delete_key_for_account a k v).0 ≡ none))

  -- Where revokeKey returns without an error, the account that it has read has at least two keys,
  -- one of them with the given index, a transaction of the account with the code that removes a key
  -- and this index as its one argument was created without an error, and the store has deleted this
  -- key.
  pub revoke_key-IsRevoked :
      (address : A) (index : ℕ) (a : Account) (w w' : W)
      → revoke_key svc address index w ≡ returned a w'
      → IsRevoked address index w a
  unfolding revoke_key create_revoke_key_tx IsRevoked
  revoke_key-IsRevoked address index a w w' h =
      let (read, w₁, found, h₁) = and_then-returned h in
      let (_, w₂, tested, h₂) = and_then-returned h₁ in
      let (k, w₃, chosen, h₃) = and_then-returned h₂ in
      let (tx, w₄, sent, h₄) = and_then-returned h₃ in
      let (_, w₅, deleted, h₅) = and_then-returned h₄ in
      let (same, _) = returned_inj h₅ in
      let (account, _) = of_result-returned found in
      let (several, _) = of_error-returned tested in
      let more : (length read.keys == 1) ≡ false = ground arith in
      let (choice, _) = try-returned chosen in
      let (named, n, there) = key_to_delete_lem _ index read.keys k choice in
      let (fine, _) = of_error-returned deleted in
      subst (IsRevoked address index w) same (
        account,
        two_or_more read.keys k n more there,
        (
          k,
          n,
          w₃,
          w₄,
          tx,
          named,
          there,
          ap₂ (λ r v. (r, v)) (of_result-returned sent).0 (of_result-returned sent).1,
          fine,
        ),
      )
