-- ===== src/Keys/Encryption.antt =====
-- keys/encryption/aes.go: AES-GCM with a random nonce in front of the sealed message. Go's packages crypto/aes,
-- crypto/cipher and crypto/rand are parameters.
use flow_wallet_api.Prelude.{
  ℕ, zero, suc, ◌≡◌, refl, ap, ◌∙◌, sym, false, List, [], ◌∷◌, ◌++◌, bytes, length, take, drop, ltb,
  arith, length-append, inl, inr, if◌then◌else◌,
}
use flow_wallet_api.Errors.{GoError, plain, Result, ok, err, Result-cases}
use flow_wallet_api.Keys.Types.{Crypter}

-- A cipher.AEAD. Seal without its first argument, to which the code makes it append.
pub record Gcm : Type 0 where
  pub nonce_size : ℕ
  pub seal : List ℕ → List ℕ → List ℕ
  pub open_sealed : List ℕ → List ℕ → Result (List ℕ)

-- aes.NewCipher and cipher.NewGCM, and io.ReadFull of rand.Reader. What was sealed under a nonce opens
-- under it, and a full read has the asked length.
pub record Aead (W : Type 0) : Type 0 where
  pub new_cipher : List ℕ → Result ℕ
  pub new_gcm : ℕ → Result Gcm
  pub read_full : ℕ → W → Result (List ℕ) × W
  pub opens :
      (c : ℕ) (g : Gcm) (nonce message : List ℕ)
      → new_gcm c ≡ ok g
      → g.open_sealed nonce (g.seal nonce message) ≡ ok message
  pub reads : (n : ℕ) (w : W) (s : List ℕ) → (read_full n w).0 ≡ ok s → length s ≡ n

abbrev pub too_short : GoError
too_short = plain (bytes "message too short")

module _ {W : Type 0} (a : Aead W) (key : List ℕ) where
  -- The first half of Encrypt and of Decrypt.
  abbrev make_gcm : Result Gcm
  make_gcm = elim (a.new_cipher key) [ err e ↦ err e | ok c ↦ a.new_gcm c ]

  -- AESCrypter.Encrypt
  pub aes_encrypt : List ℕ → W → Result (List ℕ) × W
  aes_encrypt message w = elim make_gcm [
    | err e ↦ (err e, w)
    | ok g ↦
        let (r, w') = a.read_full g.nonce_size w in
        elim r [ err e ↦ (err e, w') | ok nonce ↦ (ok (nonce ++ g.seal nonce message), w') ]
  ]

  -- AESCrypter.Decrypt
  pub aes_decrypt : List ℕ → W → Result (List ℕ) × W
  aes_decrypt encrypted w = elim make_gcm [
    | err e ↦ (err e, w)
    | ok g ↦
        if ltb (length encrypted) g.nonce_size
        then (err too_short, w)
        else (g.open_sealed (take g.nonce_size encrypted) (drop g.nonce_size encrypted), w)
  ]

  -- NewAESCrypter
  unfoldable pub aes_crypter : Crypter W
  unfolding aes_encrypt aes_decrypt
  aes_crypter = record { encrypt = aes_encrypt; decrypt = aes_decrypt }

take_front : (n : ℕ) (xs ys : List ℕ) → length xs ≡ n → take n (xs ++ ys) ≡ xs
take_front zero [] ys h = refl
take_front zero (x ∷ xs) ys h = absurd (ground arith)
take_front (suc n) [] ys h = absurd (ground arith)
take_front (suc n) (x ∷ xs) ys h = ap (λ l. x ∷ l) (take_front n xs ys (ground arith))

drop_front : (n : ℕ) (xs ys : List ℕ) → length xs ≡ n → drop n (xs ++ ys) ≡ ys
drop_front zero [] ys h = refl
drop_front zero (x ∷ xs) ys h = absurd (ground arith)
drop_front (suc n) [] ys h = absurd (ground arith)
drop_front (suc n) (x ∷ xs) ys h = drop_front n xs ys (ground arith)

module _ {W : Type 0} (a : Aead W) (key : List ℕ) where
  gcm_opens :
      (g : Gcm) (nonce message : List ℕ)
      → make_gcm a key ≡ ok g
      → g.open_sealed nonce (g.seal nonce message) ≡ ok message
  gcm_opens g nonce message h = elim (Result-cases (a.new_cipher key)) [
    | inr (e, r) ↦ ground arith
    | inl (c, r) ↦ a.opens c g nonce message (sym (rw (r, make_gcm) refl) ∙ h)
  ]

  opens_front :
      (g : Gcm) (nonce message : List ℕ) (w : W)
      → make_gcm a key ≡ ok g
      → length nonce ≡ g.nonce_size
      → (aes_decrypt a key (nonce ++ g.seal nonce message) w).0 ≡ ok message
  unfolding aes_decrypt
  opens_front g nonce message w made size =
      let sealed = g.seal nonce message in
      let long : ltb (length (nonce ++ sealed)) g.nonce_size ≡ false =
        ground (arith, length-append nonce sealed) in
      rw (made, aes_decrypt)
        (rw (long, take_front g.nonce_size nonce sealed size)
          (rw (drop_front g.nonce_size nonce sealed size) (gcm_opens g nonce message made)))

  -- Decrypt, with the key that Encrypt had, returns the message that Encrypt has encrypted.
  pub aes_encrypt-decrypt :
      (message encrypted : List ℕ) (w w' : W)
      → (aes_encrypt a key message w).0 ≡ ok encrypted
      → (aes_decrypt a key encrypted w').0 ≡ ok message
  unfolding aes_encrypt
  aes_encrypt-decrypt message encrypted w w' h = elim (Result-cases (make_gcm a key)) [
    | inr (e, made) ↦ ground arith
    | inl (g, made) ↦ elim (Result-cases (a.read_full g.nonce_size w).0) [
      | inr (e, r) ↦ ground arith
      | inl (nonce, r) ↦
          let same : nonce ++ g.seal nonce message ≡ encrypted = ground arith in
          rw (sym same) (opens_front g nonce message w' made (a.reads g.nonce_size w nonce r))
    ]
  ]
