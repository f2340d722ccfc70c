-- ===== src/Keys/Manager/Tests.antt =====
-- Examples for the key manager: an AES-GCM that leaves its message as it is behind a nonce of zeros, and a store and a
-- chain of numbers.
use flow_wallet_api.Prelude.{
  ℕ, zero, suc, ◌≡◌, refl, sym, ap, subst, Bool, true, false, none, List, [], ◌∷◌, bytes, pos,
  length, arith,
}
use flow_wallet_api.Errors.{plain, ok, err, ok_inj}
use flow_wallet_api.Transactions.Tests.{Account, sdk}
use flow_wallet_api.Keys.Types.{no_storable, Private, AccountKey, Store}
use flow_wallet_api.Keys.Encryption.{Gcm, Aead, aes_crypter}
use flow_wallet_api.Keys.Manager.{
  KeyManager, saved, save, load, init_admin_proposal_keys, insert_usable,
  check_admin_proposal_key_count,
}
use flow_wallet_api.Keys.Manager.Storage.{aes_crypter-Decrypts, save-load}
use flow_wallet_api.Keys.Manager.Proposals.{IsCounting, init_admin_proposal_keys-check}

abbrev zeros : ℕ → List ℕ
zeros zero = []
zeros (suc n) = 0 ∷ zeros n

length-zeros : (n : ℕ) → length (zeros n) ≡ n
length-zeros zero = refl
length-zeros (suc n) = ap suc (length-zeros n)

abbrev open_gcm : Gcm
open_gcm = record { nonce_size = 2; seal = λ nonce m. m; open_sealed = λ nonce c. ok c }

abbrev aead : Aead ℕ
aead = record {
  new_cipher = λ key. ok 0;
  new_gcm = λ c. ok open_gcm;
  read_full = λ n w. (ok (zeros n), suc w);
  opens = λ c g nonce message made.
      subst (λ h. h.open_sealed nonce (h.seal nonce message) ≡ ok message) (ok_inj made) refl;
  reads = λ n w s read. subst (λ l. length l ≡ n) (ok_inj read) (length-zeros n);
}

abbrev pub on_chain : ℕ → Bool → AccountKey
on_chain index revoked = record {
  index = index;
  public_key = bytes "0xab";
  sequence_number = 0;
  revoked = revoked;
  weight = pos 1000;
  sign_algo = 2;
  hash_algo = 3;
}

-- The world is the number of stored proposal keys.
abbrev store : Store ℕ
store = record {
  account_key = λ a w. (ok no_storable, w);
  proposal_key_index = λ limit w. (ok 0, w);
  proposal_key_count = λ w. (ok w, w);
  insert_proposal_key = λ k w. (none, suc w);
  delete_all_proposal_keys = λ w. (none, 0);
}

abbrev manager : KeyManager ℕ Account
manager = record {
  store = store;
  get_account = λ a w. (ok (on_chain 0 false ∷ on_chain 1 true ∷ on_chain 2 false ∷ []), w);
  crypter = aes_crypter aead (bytes "key");
  cfg = record {
    admin_address = bytes "0x1";
    admin_key_index = 0;
    admin_key_type = bytes "local";
    admin_private_key = bytes "ab";
    admin_proposal_key_count = 2;
    default_key_index = 0;
    default_key_weight = pos 1000;
    default_key_type = bytes "local";
    default_sign_algo = bytes "ECDSA_P256";
    default_hash_algo = bytes "SHA3_256";
    encryption_key_type = bytes "local";
  };
  sdk = sdk;
  address_eq = λ a b. true;
  crypto = record {
    sign_algo_text = λ n. n ∷ [];
    hash_algo_text = λ n. n ∷ [];
    sign_algo_of = length;
    hash_algo_of = length;
    read_seed = λ w. (ok [], w);
    generate_private_key = λ a s. ok 0;
    private_key_hex = λ k. [];
    decode_private_key = λ a t. ok 0;
    account_key_from = λ k. on_chain 0 false;
    in_memory_signer = λ p a. ok p;
  };
  google = record { generate = λ i wt w. (err (plain []), w); signer = λ k w. (ok 0, w) };
  aws = record { generate = λ i wt w. (err (plain []), w); signer = λ k w. (ok 0, w) };
  itoa = λ n. n ∷ [];
}

abbrev private_key : Private
private_key = record {
  index = 4;
  key_type = bytes "local";
  value = bytes "secret";
  sign_algo = 1;
  hash_algo = 1;
}

-- Decrypted in another world than it was encrypted in.
save-load_example :
    (load manager (saved manager private_key (0 ∷ 0 ∷ bytes "secret")) 9).0 ≡ ok private_key
unfolding save aes_crypter
save-load_example =
    save-load manager private_key (saved manager private_key (0 ∷ 0 ∷ bytes "secret")) 5 9
      (aes_crypter-Decrypts aead (bytes "key")) refl refl refl

counting : IsCounting store (λ w. w)
counting = record {
  deletes = λ w h. refl;
  inserts = λ index w h. refl;
  counts = λ w n h. sym (ok_inj h);
}

init_admin_proposal_keys-check_example :
    (check_admin_proposal_key_count manager (init_admin_proposal_keys manager 7).2).0 ≡ none
unfolding init_admin_proposal_keys insert_usable
init_admin_proposal_keys-check_example =
    init_admin_proposal_keys-check manager (λ w. w) counting 7 refl (omega arith) refl refl 2 refl
