-- ===== src/Accounts/Service/Tests.antt =====
-- Examples for the operations on stored accounts.
use flow_wallet_api.Prelude.{
  ◌≡◌, ◌≢◌, ◌↔◌, ◌⊎◌, refl, true, none, some, [], ◌∷◌, Text, bytes, map, All, contains, has_prefix,
}
use flow_wallet_api.Errors.{GoError, error_text, ok, err}
use flow_wallet_api.FlowHelpers.{validate_address}
use flow_wallet_api.Transactions.Tests.{sdk}
use flow_wallet_api.Accounts.Types.{Account, account_type_non_custodial}
use flow_wallet_api.Accounts.Service.{
  without_value, only_non_custodial, delete_non_custodial_account, account_details,
}
use flow_wallet_api.Accounts.Service.Custody.{
  account_details_hides, delete_non_custodial_account_lem,
}
use flow_wallet_api.Accounts.Tests.{service, stored, key}

abbrev shown : Account
shown = record stored { keys = without_value (key 1) ∷ without_value (key 0) ∷ [] }

account_details_hides_example :
    (valid : Text) × (b : Account) × (validate_address sdk (bytes "1") ≡ ok valid)
    × (ok stored ≡ ok b)
    × (shown ≡ record b { keys = map without_value b.keys })
    × All (λ k. k.value ≡ []) shown.keys
unfolding account_details validate_address has_prefix
account_details_hides_example = account_details_hides (service true) (bytes "1") shown 0 refl

delete_non_custodial_account_lem_example :
    ((e : GoError) × (ok stored ≡ err e)
      × ((delete_non_custodial_account (service true) (bytes "1") 0).1 ≡ 0)
      × (((delete_non_custodial_account (service true) (bytes "1") 0).0 ≡ none)
          ↔ (contains (error_text e) (bytes "record not found") ≡ true)))
    ⊎ ((a : Account) × (ok stored ≡ ok a)
        × (((a.account_type ≡ account_type_non_custodial)
              × (delete_non_custodial_account (service true) (bytes "1") 0 ≡ (none, 0)))
            ⊎ ((a.account_type ≢ account_type_non_custodial)
                × (delete_non_custodial_account (service true) (bytes "1") 0
                    ≡ (some only_non_custodial, 0)))))
delete_non_custodial_account_lem_example =
    delete_non_custodial_account_lem (service true) (bytes "1") 0
