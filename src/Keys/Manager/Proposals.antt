-- ===== src/Keys/Manager/Proposals.antt =====
-- The admin's proposal keys: InitAdminProposalKeys and CheckAdminProposalKeyCount (keys/basic).
use flow_wallet_api.Prelude.{
  ℕ, suc, ◌+◌, ◌%◌, ◌^◌, ◌≡◌, ◌≤◌, refl, ◌∙◌, inl, inr, false, none, List, [], ◌∷◌, arith, ltb,
  count_by, Bool-cases, Option-cases,
}
use flow_wallet_api.Errors.{ok, Result-cases}
use flow_wallet_api.Keys.Types.{AccountKey, Store}
use flow_wallet_api.Keys.Manager.{
  KeyManager, admin, is_usable, new_proposal_key, check_stored, check_admin_proposal_key_count,
  insert_usable, init_admin_proposal_keys,
}

-- How a key store counts its proposal keys: `stored` is their number.
pub record IsCounting {W : Type 0} (store : Store W) (stored : W → ℕ) : Type 0 where
  pub deletes :
      (w : W)
      → (store.delete_all_proposal_keys w).0 ≡ none
      → stored (store.delete_all_proposal_keys w).1 ≡ 0
  pub inserts :
      (index : ℕ) (w : W)
      → (store.insert_proposal_key (new_proposal_key index) w).0 ≡ none
      → stored (store.insert_proposal_key (new_proposal_key index) w).1 ≡ suc (stored w)
  pub counts : (w : W) (n : ℕ) → (store.proposal_key_count w).0 ≡ ok n → n ≡ stored w

module _ {W A : Type 0} (m : KeyManager W A) (stored : W → ℕ) (c : IsCounting m.store stored) where
  open m use {store, get_account, cfg}

  -- The loop has inserted the usable keys; its count is theirs, or less where a uint16 has wrapped.
  insert_usable_stores :
      (keys : List AccountKey) (count : ℕ) (w : W)
      → (insert_usable m keys count w).1 ≡ none
      → (stored (insert_usable m keys count w).2 ≡ stored w + count_by is_usable keys)
        × ((insert_usable m keys count w).0 ≤ count + count_by is_usable keys)
  unfolding insert_usable
  insert_usable_stores [] count w h = (omega arith, omega arith)
  insert_usable_stores (k ∷ keys) count w h = elim (Bool-cases k.revoked) [
    | inl r ↦
        let (kept, bound) = insert_usable_stores keys count w (ground arith) in
        rw (r, insert_usable) (kept, bound)
    | inr r ↦
        let w' = (store.insert_proposal_key (new_proposal_key k.index) w).1 in
        elim (Option-cases (store.insert_proposal_key (new_proposal_key k.index) w).0) [
          | inr (x, e) ↦ ground arith
          | inl e ↦
              let more : (insert_usable m keys ((count + 1) % 2 ^ 16) w').1 ≡ none = ground arith in
              let (kept, bound) = insert_usable_stores keys ((count + 1) % 2 ^ 16) w' more in
              let one = c.inserts k.index w e in
              rw (r, insert_usable) (rw e (omega arith, omega arith))
        ]
  ]

  -- What InitAdminProposalKeys has done where it succeeds.
  init_stores :
      (w : W)
      → (init_admin_proposal_keys m w).1 ≡ none
      → (keys : List AccountKey) × ((get_account (admin m) w).0 ≡ ok keys)
        × (stored (init_admin_proposal_keys m w).2 ≡ count_by is_usable keys)
        × ((init_admin_proposal_keys m w).0 ≤ count_by is_usable keys)
  unfolding init_admin_proposal_keys
  init_stores w h = elim (Result-cases (get_account (admin m) w).0) [
    | inr (x, r) ↦ ground arith
    | inl (keys, r) ↦
        let w' = (get_account (admin m) w).1 in
        elim (Option-cases (store.delete_all_proposal_keys w').0) [
          | inr (x, e) ↦ ground arith
          | inl e ↦
              let w'' = (store.delete_all_proposal_keys w').1 in
              let looped : (insert_usable m keys 0 w'').1 ≡ none = ground arith in
              let (kept, bound) = insert_usable_stores keys 0 w'' looped in
              let empty = c.deletes w' e in
              (
                keys,
                r,
                rw (r, init_admin_proposal_keys) (rw e (omega arith)),
                rw (r, init_admin_proposal_keys) (rw e (omega arith)),
              )
        ]
  ]

  -- After InitAdminProposalKeys has succeeded with at least the configured count,
  -- CheckAdminProposalKeyCount succeeds, if the chain still has the same keys, reading them leaves
  -- the stored keys alone, the count can be read, and the store counts its keys.
  pub init_admin_proposal_keys-check :
      (w : W)
      → (init_admin_proposal_keys m w).1 ≡ none
      → cfg.admin_proposal_key_count ≤ (init_admin_proposal_keys m w).0
      → let w' = (init_admin_proposal_keys m w).2 in
        let seen = get_account (admin m) w' in
        seen.0 ≡ (get_account (admin m) w).0
        → stored seen.1 ≡ stored w'
        → (n : ℕ) → (store.proposal_key_count seen.1).0 ≡ ok n
        → (check_admin_proposal_key_count m w').0 ≡ none
  unfolding check_admin_proposal_key_count check_stored
  init_admin_proposal_keys-check w h enough same kept n counted =
      let (keys, r, there, bound) = init_stores w h in
      let w' = (init_admin_proposal_keys m w).2 in
      let read : (get_account (admin m) w').0 ≡ ok keys = same ∙ r in
      let number = c.counts (get_account (admin m) w').1 n counted in
      let on_chain : ltb (count_by is_usable keys) cfg.admin_proposal_key_count ≡ false =
        ground arith in
      let in_database : ltb n cfg.admin_proposal_key_count ≡ false = ground arith in
      rw (read, check_admin_proposal_key_count)
        (rw on_chain (rw (counted, check_stored) (rw in_database refl)))
