-- ===== src/Accounts/Store.antt =====
-- accounts/store_gorm.go: the SQL store of accounts. gorm is the parameter `AccountTable`.
use flow_wallet_api.Prelude.{ℕ, not, Option, some, List, Text, bytes, text_eq, if◌then◌else◌}
use flow_wallet_api.Errors.{GoError, plain, Result}
use flow_wallet_api.Datastore.{ListOptions}
use flow_wallet_api.Keys.Types.{Storable}
use flow_wallet_api.Accounts.Types.{Account, Store}

-- What GormStore calls on *gorm.DB: `find` is ORDER BY created_at desc with LIMIT and OFFSET, `first_with_keys` First
-- after Preload("Keys"), `delete_unscoped` a delete without soft deletion, and `delete_keys` the delete
-- of the keys with an account's address and an id.
pub record AccountTable (W : Type 0) : Type 0 where
  pub find : ListOptions → W → Result (List Account) × W
  pub first_with_keys : Text → W → Result Account × W
  pub create : Account → W → Option GoError × Account × W
  pub save : Account → W → Option GoError × W
  pub delete_unscoped : Account → W → Option GoError × W
  pub delete_keys : Text → ℕ → W → Option GoError × W
  pub find_keys_of_type : Text → W → Result (List Storable) × W

abbrev pub foreign_key : GoError
foreign_key = plain (bytes "key does not belong to the given account")

module _ {W : Type 0} (t : AccountTable W) where
  -- GormStore.DeleteKeyForAccount
  unfoldable pub delete_key_for_account : Account → Storable → W → Option GoError × W
  delete_key_for_account a key w =
      if not (text_eq key.account_address a.address)
      then (some foreign_key, w)
      else t.delete_keys a.address key.id w

  -- GormStore
  unfoldable pub account_store : Store W
  unfolding delete_key_for_account
  account_store = record {
    accounts = t.find;
    account = t.first_with_keys;
    insert_account = t.create;
    save_account = t.save;
    hard_delete_account = t.delete_unscoped;
    delete_key_for_account = delete_key_for_account;
    get_keys_by_type = t.find_keys_of_type;
  }
