-- ===== src/Keys/Manager/Storage.antt =====
-- Save and Load (keys/basic/keys.go), with the crypter of keys/encryption/aes.go.
use flow_wallet_api.Prelude.{ℕ, ◌≡◌, refl, sym, ap, ◌∙◌, inl, inr, List, arith}
use flow_wallet_api.Errors.{ok, ok_inj, Result-cases}
use flow_wallet_api.Keys.Types.{Storable, Private, Crypter}
use flow_wallet_api.Keys.Encryption.{Aead, aes_crypter, aes_encrypt-decrypt}
use flow_wallet_api.Keys.Manager.{KeyManager, saved, save, load}

-- What a crypter encrypts it decrypts again, at any later time.
abbrev pub Decrypts : {W : Type 0} → Crypter W → Type 0
Decrypts c =
    (message encrypted : List ℕ) (w w' : _)
    → (c.encrypt message w).0 ≡ ok encrypted
    → (c.decrypt encrypted w').0 ≡ ok message

-- AESCrypter decrypts what it has encrypted.
pub aes_crypter-Decrypts : {W : Type 0} (a : Aead W) (key : List ℕ) → Decrypts (aes_crypter a key)
unfolding aes_crypter
aes_crypter-Decrypts a key = aes_encrypt-decrypt a key

module _ {W A : Type 0} (m : KeyManager W A) where
  open m use {crypter, crypto}

  load_saved :
      (k : Private) (value : List ℕ) (w : W)
      → (crypter.decrypt value w).0 ≡ ok k.value
      → crypto.sign_algo_of (crypto.sign_algo_text k.sign_algo) ≡ k.sign_algo
      → crypto.hash_algo_of (crypto.hash_algo_text k.hash_algo) ≡ k.hash_algo
      → (load m (saved m k value) w).0 ≡ ok k
  unfolding load
  load_saved k value w plain sign hash = rw (plain, load) (rw sign (rw hash refl))

  -- Load returns the private key that Save has made a storable key of, at any later time, if the
  -- crypter decrypts what it encrypts and the SDK reads back the names of the key's two algorithms.
  pub save-load :
      (k : Private) (s : Storable) (w w' : W)
      → Decrypts crypter
      → crypto.sign_algo_of (crypto.sign_algo_text k.sign_algo) ≡ k.sign_algo
      → crypto.hash_algo_of (crypto.hash_algo_text k.hash_algo) ≡ k.hash_algo
      → (save m k w).0 ≡ ok s
      → (load m s w').0 ≡ ok k
  unfolding save
  save-load k s w w' decrypts sign hash h = elim (Result-cases (crypter.encrypt k.value w).0) [
    | inr (e, r) ↦ ground arith
    | inl (value, r) ↦
        let plain = decrypts k.value value w w' r in
        let made : saved m k value ≡ s = ok_inj (sym (rw (r, save) refl) ∙ h) in
        ap (λ x. (load m x w').0) (sym made) ∙ load_saved k value w' plain sign hash
  ]
