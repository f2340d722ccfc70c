-- ===== src/Accounts/Tests.antt =====
-- A service for the examples of accounts/: one account with two keys, on a chain with a key more that is revoked.
use flow_wallet_api.Prelude.{ℕ, Bool, true, false, none, some, [], ◌∷◌, bytes, if◌then◌else◌}
use flow_wallet_api.Errors.{plain, ok, err}
use flow_wallet_api.Transactions.Types.{no_transaction, Transaction}
use flow_wallet_api.Transactions.Tests.{
  Account, service_account, sdk, client, first_answer, sealed_result, pool, admin,
}
use flow_wallet_api.Keys.Types.{Storable, no_storable, Private}
use flow_wallet_api.Keys.Manager.Tests.{on_chain}
use flow_wallet_api.Accounts.Types
use flow_wallet_api.Accounts.Types.{ServiceImpl, no_account}

abbrev pub key : ℕ → Storable
key index = record no_storable {
  id = 10;
  account_address = bytes "0x1";
  index = index;
  value = bytes "secret";
  public_key = bytes "0xab";
}

-- Stored with the newer key first.
abbrev pub stored : Types.Account
stored = record no_account {
  address = bytes "0x1";
  keys = key 1 ∷ key 0 ∷ [];
  account_type = bytes "custodial";
}

abbrev private_key : Private
private_key = record {
  index = 0;
  key_type = bytes "local";
  value = [];
  sign_algo = 2;
  hash_algo = 3;
}

abbrev pub tx : Transaction ℕ
tx = record no_transaction { transaction_id = bytes "cd" }

-- The SDK builds a transaction if `builds` says so.
abbrev pub service : Bool → ServiceImpl ℕ Account ℕ ℕ
service builds = record {
  cfg = record {
    chain_id = bytes "flow-emulator";
    admin_address = bytes "0x1";
    admin_key_index = 0;
    admin_proposal_key_count = 2;
    default_account_key_count = 3;
    script_path_create_account = [];
    add_account_keys = [];
    add_account_key = [];
    remove_account_key = [];
    add_proposal_key = [];
  };
  store = record {
    accounts = λ o w. (ok (stored ∷ []), w);
    account = λ a w. (ok stored, w);
    insert_account = λ a w. (none, a, w);
    save_account = λ a w. (none, w);
    hard_delete_account = λ a w. (none, w);
    delete_key_for_account = λ a k w. (none, w);
    get_keys_by_type = λ t w. (ok [], w);
  };
  km = record {
    admin_authorizer = λ w. (ok admin, w);
    admin_proposal_key = λ w. (ok admin, w);
    generate_default = λ w. (ok (on_chain 5 false, private_key), w);
    save = λ k w. (ok no_storable, w);
    check_admin_proposal_key_count = λ w. (none, w);
    init_admin_proposal_keys = λ w. (2, none, w);
  };
  fc = client;
  patience = record {
    rounds = λ id w. 1;
    answers = λ id w. ((some sealed_result, none), first_answer id w);
  };
  get_account = λ a w. (ok (on_chain 0 false ∷ on_chain 1 false ∷ on_chain 2 true ∷ []), w);
  wp = pool;
  create_sync = λ a code arguments t w. (ok tx, w);
  take = λ w. w;
  sdk = sdk;
  builder = record {
    create_account = λ keys payer. if builds then ok 1 else err (plain (bytes "invalid keys"));
    new_transaction = 0;
    prepare = λ block proposer payer gas t. t;
    set_script = λ script t. t;
    add_argument = λ v t. ok t;
    add_authorizer = λ a t. t;
    sign_payload = λ a t. ok t;
    sign_envelope = λ a t. ok t;
    tx_id = λ t. bytes "cd";
    event_address = λ event. some service_account;
    empty_address = service_account;
    is_empty = λ a. false;
  };
  codec = record {
    decode_public_key = λ algo t. ok 0;
    same_key = λ k pbk. true;
    new_string = λ t. ok t;
    new_array = λ ts. [];
    new_int = λ n. [];
    new_uint16 = λ n. [];
    crypto_key = λ k. ok [];
  };
  attributes = record {
    marshal_sync = λ a n. ok [];
    unmarshal_sync = λ t. err (plain []);
    marshal_add = λ a. ok [];
    unmarshal_add = λ t. err (plain []);
    marshal_revoke = λ a n. ok [];
    unmarshal_revoke = λ t. err (plain []);
  };
  handlers = [];
  read_file = λ path w. (err (plain []), w);
  itoa = λ n. n ∷ [];
}
