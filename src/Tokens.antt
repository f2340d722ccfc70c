-- ===== src/Tokens.antt =====
-- tokens/: the tokens of accounts, withdrawals and deposits, over the datastore and the services for accounts,
-- transactions and templates.
pub mod Types
pub mod Store
pub mod Service
pub mod Withdrawals
pub mod Deposits
