-- ===== src/Accounts.antt =====
-- accounts/: accounts and their keys, over the datastore, the key manager, the Flow client and the transaction
-- service.
pub mod Types
pub mod Store
pub mod Service
pub mod Creation
pub mod Keys
pub mod Admin
pub mod Tests
