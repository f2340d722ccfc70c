-- ===== src/Tokens/Deposits/Tests.antt =====
-- Examples for deposits: a world that is the rows of token_transfers and the types of the transactions.
use flow_wallet_api.Prelude.{
  ℕ, ◌≡◌, ◌≢◌, refl, inl, inr, Option, none, some, List, [], ◌∷◌, Text, bytes, find_by, contains,
  text_eq, text_eq_refl, has_prefix, arith, if◌then◌else◌, Option-cases,
}
use flow_wallet_api.Errors.{GoError, error_text, record_not_found, Result, ok, err}
use flow_wallet_api.Call.{Run, final, and_then, of_result, of_error, try, deref}
use flow_wallet_api.Templates.{ft, nft, Token, TokenType}
use flow_wallet_api.Transactions.Types.{TransactionType, unknown, Transaction, no_transaction}
use flow_wallet_api.Transactions.Tests.{Account, service_account, sdk, pool}
use flow_wallet_api.Transactions.Sql.{
  TransactionTable, get_or_create_transaction, update_transaction,
}
use flow_wallet_api.Accounts.Types.{no_account}
use flow_wallet_api.Tokens.Types.{TokenTransfer, FlowTransaction, TransactionService, ServiceImpl}
use flow_wallet_api.Tokens.Store.{
  TransferQuery, selects, TokenTables, token_store, token_to_transfer_type,
}
use flow_wallet_api.Tokens.Deposits.{
  register_deposit, claim_transaction, store_unless_found, after_lookup, store_deposit,
}
use flow_wallet_api.Tokens.Deposits.Ledger.{IsLedger, stamped}
use flow_wallet_api.Tokens.Deposits.Claims.{sql}
use flow_wallet_api.Tokens.Deposits.Repeated.{register_deposit_once}
use flow_wallet_api.Tokens.Deposits.Duplicates.{Row, register_deposit_twice}

pub record World : Type 0 where
  pub rows : List TokenTransfer
  pub types : Text → Option TransactionType

abbrev answer : Option TokenTransfer → Result TokenTransfer
answer none = err record_not_found
answer (some x) = ok x

abbrev first : TransferQuery → World → Result TokenTransfer × World
first q w = (answer (find_by (selects q w.types) w.rows), w)

abbrev tables : TokenTables World
tables = record {
  find_tokens = λ a k w. (ok [], w);
  first_or_create = λ k w. (none, w);
  create = λ x w. (none, record w { rows = stamped 1 x ∷ w.rows });
  find = λ q w. (ok [], w);
  first = first;
}

abbrev transaction : Text → TransactionType → Transaction ℕ
transaction id type = record no_transaction { transaction_id = id; transaction_type = type }

abbrev typed_as : Text → TransactionType → World → World
typed_as id type w = record w { types = λ i. if text_eq i id then some type else w.types i }

abbrev get_or_create : Text → World → (Option GoError × Transaction ℕ) × World
get_or_create id w = elim (w.types id) [
  | some type ↦ ((none, transaction id type), w)
  | none ↦ ((none, transaction id unknown), typed_as id unknown w)
]

abbrev transactions : TransactionTable World ℕ
transactions = record {
  find = λ q o w. (ok [], w);
  first = λ q w. (err record_not_found, w);
  first_or_create = get_or_create;
  create = λ x w. (none, w);
  save = λ x w. (none, typed_as x.transaction_id x.transaction_type w);
}

abbrev txs : TransactionService World ℕ
txs = record {
  create = λ sync a code arguments type st. (ok (none, no_transaction), st);
  create_sync = λ a code arguments type w. (ok no_transaction, w);
  execute_script = λ code arguments w. (ok [], w);
  get_or_create_transaction = get_or_create_transaction transactions;
  update_transaction = update_transaction transactions;
}

abbrev flow_transaction : FlowTransaction Account
flow_transaction = record { proposer = service_account; authorizers = service_account ∷ [] }

abbrev get_flow : Text → World → Result (FlowTransaction Account) × World
get_flow id w = (ok flow_transaction, w)

abbrev pub service : ServiceImpl World Account ℕ
service = record {
  store = token_store tables;
  get_flow_transaction = get_flow;
  wp = pool;
  txs = txs;
  token_by_name = λ name w. (err record_not_found, w);
  account_details = λ a w. (ok no_account, w);
  sdk = sdk;
  codec = record {
    new_address = λ a. [];
    new_ufix64 = λ t. ok t;
    new_uint64 = λ n. [];
    parse_uint = λ t. ok 7;
    marshal = λ s r. ok [];
    unmarshal = λ t. err record_not_found;
  };
}

found :
    (o : Option TokenTransfer) (y : TokenTransfer)
    → answer o ≡ ok y
    → (x : TokenTransfer) × (o ≡ some x)
found none y h = absurd (ground arith)
found (some x) y h = (x, refl)

not_failed :
    (o : Option TokenTransfer) (x : TokenTransfer) (e : GoError) → o ≡ some x → answer o ≢ err e
not_failed none x e h f = ground arith
not_failed (some y) x e h f = ground arith

get_rows : (id : Text) (w : World) → (get_or_create id w).1.rows ≡ w.rows
get_rows id w = elim (Option-cases (w.types id)) [
  | inl e ↦ rw (e, get_or_create) refl
  | inr (k, e) ↦ rw (e, get_or_create) refl
]

get_types :
    (id : Text) (w : World)
    → (get_or_create id w).0.0 ≡ none
    → ((get_or_create id w).0.1.transaction_id ≡ id)
      × ((get_or_create id w).1.types id ≡ some (get_or_create id w).0.1.transaction_type)
get_types id w h = elim (Option-cases (w.types id)) [
  | inl e ↦ rw (e, get_or_create) (refl, rw (text_eq_refl id) refl)
  | inr (k, e) ↦ rw (e, get_or_create) (refl, e)
]

abbrev ledger : IsLedger tables transactions get_flow
ledger = record {
  transfers = λ w. w.rows;
  typed = λ w. w.types;
  first_finds = λ q w x e held failed.
      absurd (not_failed (find_by (selects q w.types) w.rows) x e held failed);
  first_found = λ q w y h. found (find_by (selects q w.types) w.rows) y h;
  first_keeps = λ q w. (refl, refl);
  token_keeps = λ k w. (refl, refl);
  create_writes = λ x w h. (1, refl);
  create_keeps = λ x w. refl;
  get_keeps = get_rows;
  get_types = get_types;
  get_reads = λ id w type h e. rw (e, get_or_create) (refl, refl);
  update_keeps = λ x w. refl;
  update_types = λ x w h. rw (text_eq_refl x.transaction_id) refl;
  chain_keeps = λ id w. (refl, refl);
}

abbrev empty : World
empty = record { rows = []; types = λ id. none }

abbrev token : TokenType → Token
token type = record {
  id = 0;
  name = bytes "T";
  name_lower_case = bytes "t";
  address = bytes "0x1";
  setup = [];
  transfer = [];
  balance = [];
  token_type = type;
}

-- Transaction ab, twice.
abbrev registered : TokenType → World → Run World (Unit {0})
registered type w =
    register_deposit (sql service tables transactions ledger) (token type) (bytes "ab") no_account
      (bytes "1") w

register_deposit_twice_example :
    (x y : TokenTransfer) × Row service tables transactions ledger (bytes "ab") [] (token nft) x
    × Row service tables transactions ledger (bytes "ab") [] (token nft) y
    × ((final (registered nft (final (registered nft empty)))).rows ≡ y ∷ x ∷ [])
unfolding register_deposit claim_transaction store_unless_found after_lookup store_deposit
    token_store token_to_transfer_type and_then of_result of_error try deref selects contains
    error_text text_eq has_prefix
register_deposit_twice_example =
    register_deposit_twice service tables transactions ledger (token nft) (bytes "ab") no_account
      (bytes "1") tt tt empty (final (registered nft empty))
      (final (registered nft (final (registered nft empty)))) refl refl refl refl refl refl

register_deposit_once_example :
    (final (registered ft (final (registered ft empty)))).rows ≡ (final (registered ft empty)).rows
unfolding register_deposit claim_transaction store_unless_found after_lookup store_deposit
    token_store token_to_transfer_type and_then of_result of_error try deref selects contains
    error_text text_eq has_prefix
register_deposit_once_example =
    register_deposit_once service tables transactions ledger (token ft) (bytes "ab") no_account
      (bytes "1") (bytes "1") tt empty (final (registered ft empty)) refl refl refl refl refl
