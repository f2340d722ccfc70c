-- ===== src/Accounts/Service/Custody.antt =====
-- Details, AddNonCustodialAccount and DeleteNonCustodialAccount (accounts/service.go).
use flow_wallet_api.Prelude.{
  ◌≡◌, ◌≢◌, refl, sym, subst, ◌↔◌, ◌∙◌, ◌⊎◌, inl, inr, true, none, some, List, [], ◌∷◌, Text, bytes,
  All, text_eq, text_eq_iff, contains, arith, Bool-cases, map,
}
use flow_wallet_api.Errors.{GoError, error_text, ok, err, ok_inj, Result-cases}
use flow_wallet_api.FlowHelpers.{hex_string, validate_address}
use flow_wallet_api.Keys.Types.{Storable}
use flow_wallet_api.Accounts.Types.{Account, ServiceImpl, account_type_non_custodial}
use flow_wallet_api.Accounts.Service.{
  only_non_custodial, without_value, delete_non_custodial_account, account_details,
}

stripped : (ks : List Storable) → All (λ k. k.value ≡ []) (map without_value ks)
stripped [] = tt
stripped (k ∷ ks) = (refl, stripped ks)

module _ {W A Tx E : Type 0} (svc : ServiceImpl W A Tx E) where
  open svc use {store, sdk}

  -- An account that Details returns is the stored one at the validated address, but for its keys,
  -- which have no private value and else are the stored ones.
  pub account_details_hides :
      (address : Text) (a : Account) (w : W)
      → (account_details svc address w).0 ≡ ok a
      → (valid : Text) × (b : Account) × (validate_address sdk address ≡ ok valid)
        × ((store.account valid w).0 ≡ ok b)
        × (a ≡ record b { keys = map without_value b.keys })
        × All (λ k. k.value ≡ []) a.keys
  unfolding account_details
  account_details_hides address a w h = elim (Result-cases (validate_address sdk address)) [
    | inr (e, v) ↦ absurd (ground arith)
    | inl (valid, v) ↦ elim (Result-cases (store.account valid w).0) [
      | inr (e, r) ↦ absurd (ground arith)
      | inl (b, r) ↦
          let same : a ≡ record b { keys = map without_value b.keys } =
            ok_inj (sym h ∙ rw (v, account_details) (rw r refl)) in
          (
            valid,
            b,
            v,
            r,
            same,
            subst (λ c. All (λ k. k.value ≡ []) c.keys) (sym same) (stripped b.keys),
          )
    ]
  ]

  -- What DeleteNonCustodialAccount does: where the store has no such account it touches nothing
  -- else, and returns no error exactly if the store's error tells of a missing record; a non-
  -- custodial account the store is told to delete; a custodial one is left alone, with an error.
  pub delete_non_custodial_account_lem :
      (address : Text) (w : W)
      → let r = store.account (hex_string address) w in
        let d = delete_non_custodial_account svc address w in
        ((e : GoError) × (r.0 ≡ err e)
          × (d.1 ≡ r.1)
          × ((d.0 ≡ none) ↔ (contains (error_text e) (bytes "record not found") ≡ true)))
        ⊎ ((a : Account) × (r.0 ≡ ok a)
            × (((a.account_type ≡ account_type_non_custodial)
                  × (d ≡ store.hard_delete_account a r.1))
                ⊎ ((a.account_type ≢ account_type_non_custodial)
                    × (d ≡ (some only_non_custodial, r.1)))))
  unfolding delete_non_custodial_account
  delete_non_custodial_account_lem address w =
      let r = store.account (hex_string address) w in
      elim (Result-cases r.0) [
        | inr (e, missing) ↦ inl (e, missing, ground arith, ground arith)
        | inl (a, found) ↦ inr (
          a,
          found,
          elim (Bool-cases (text_eq a.account_type account_type_non_custodial)) [
            | inl same ↦
                inl (
                  (text_eq_iff _ _).0 same,
                  rw (found, delete_non_custodial_account) (rw same refl),
                )
            | inr other ↦ inr (
              λ same.
                  absurd (
                    ground (arith, (text_eq_iff a.account_type account_type_non_custodial).1 same)),
              rw (found, delete_non_custodial_account) (rw other refl),
            )
          ],
        )
      ]
