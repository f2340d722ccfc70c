-- ===== src/Keys.antt =====
-- keys/: key storage, encryption, and the key manager (keys/basic). The Flow client, the SDK's cryptography, AES-GCM
-- and the cloud key services are parameters.
pub mod Types
pub mod Encryption
pub mod Store
pub mod Manager
