-- ===== src/Accounts/Admin/Tests.antt =====
-- Example for the admin account: one of two proposal keys is missing on the chain.
use flow_wallet_api.Prelude.{ℕ, ◌≡◌, ◌⊎◌, refl, true, none, some, Option, text_eq}
use flow_wallet_api.Errors.{GoError, error_text}
use flow_wallet_api.Call.{and_then, of_result, of_error, try}
use flow_wallet_api.FlowHelpers.{wait_for_seal}
use flow_wallet_api.Keys.Types.{admin_proposal_key_count_mismatch}
use flow_wallet_api.Transactions.Tests.{Account}
use flow_wallet_api.Accounts.Types.{ServiceImpl}
use flow_wallet_api.Accounts.Admin.{
  init_admin_account, ensure_admin_account, check_proposal_keys, fill_proposal_keys,
  add_admin_proposal_keys, proposal_key_tx, is_mismatch, IsFilled, init_admin_account-IsFilled,
}
use flow_wallet_api.Accounts.Tests.{service}

abbrev missing_one : ServiceImpl ℕ Account ℕ ℕ
missing_one = record (service true) {
  km = record ((service true).km) {
    check_admin_proposal_key_count = λ w. (some admin_proposal_key_count_mismatch, w);
    init_admin_proposal_keys = λ w. (1, none, w);
  };
}

init_admin_account-IsFilled_example :
    ((v : ℕ) × (◌≡◌ {A = Option GoError} (some admin_proposal_key_count_mismatch) none))
    ⊎ IsFilled missing_one
unfolding init_admin_account ensure_admin_account check_proposal_keys fill_proposal_keys
    add_admin_proposal_keys proposal_key_tx is_mismatch error_text and_then of_result of_error try
    text_eq wait_for_seal
init_admin_account-IsFilled_example = init_admin_account-IsFilled missing_one tt 0 2 refl
