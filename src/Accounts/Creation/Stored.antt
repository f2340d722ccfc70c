-- ===== src/Accounts/Creation/Stored.antt =====
-- What createAccount has stored where it succeeds (accounts/service.go).
use flow_wallet_api.Prelude.{
  ℕ, zero, suc, ◌≡◌, ◌⊎◌, refl, sym, ap, ap₂, ◌∙◌, inl, inr, false, none, some, List, [], ◌∷◌, Text,
  length, some_inj, arith, Option-cases, Option, true, text_eq,
}
use flow_wallet_api.Errors.{Result, ok, err, GoError}
use flow_wallet_api.Call.{
  returned, panicked, and_then, deref, and_then-returned, of_error-returned, of_result-returned,
  returned_inj,
}
use flow_wallet_api.FlowHelpers.{format_address, sealed, TransactionResult}
use flow_wallet_api.FlowHelpers.Waiting.{wait_for_seal_sealed}
use flow_wallet_api.Keys.Types.{Storable, AccountKey, Private}
use flow_wallet_api.Transactions.{Authorizer}
use flow_wallet_api.Jobs.Types.{Job}
use flow_wallet_api.Accounts.Service.{account_create_job_type}
use flow_wallet_api.Accounts.Types.{Account, ServiceImpl, account_type_custodial}
use flow_wallet_api.Accounts.Creation.{
  clones_from, storable_clones, uint32, account_with, insert_account, store_account, send_creation,
  creation_of, create_account, created_or_panic, execute_account_create_job, send_and_await, await,
  new_address,
}

-- The keys are copies of the encrypted key with the public key of the generated one, and their indices count up
-- from `i`.
abbrev pub Copies : Storable → AccountKey → ℕ → List Storable → Type 0
Copies encrypted key i [] = Unit
Copies encrypted key i (k ∷ ks) =
    (k ≡ record encrypted { index = i; public_key = key.public_key })
    × Copies encrypted key (suc i) ks

clones-Copies :
    (i n : ℕ) (s : Storable) (key generated : AccountKey)
    → Copies s generated i
        (storable_clones (record s { public_key = generated.public_key }) (clones_from i n key))
      × (length
            (storable_clones (record s { public_key = generated.public_key }) (clones_from i n key))
          ≡ n)
clones-Copies i zero s key generated = (tt, refl)
clones-Copies i (suc n) s key generated =
    let (copied, size) = clones-Copies (suc i) n s key generated in ((refl, copied), ap suc size)

module _ {W A Tx E : Type 0} (svc : ServiceImpl W A Tx E) where
  open svc use {store, km, builder, fc}

  -- The account is the one that the store has made of a custodial account, at an address that is not the zero address
  -- and that a sealed transaction's events tell of, with the configured number of copies of the key that the manager
  -- has made of the private key to be stored, whose indices count up from 0.
  pub IsStored : AccountKey → Private → Account → Type 0
  IsStored key private a =
      (address : A) × (encrypted : Storable) × (new : Account) × (u v : W) × ((km.save private u).0
        ≡ ok encrypted)
      × ((store.insert_account new v).0 ≡ none)
      × ((store.insert_account new v).1 ≡ a)
      × (new.address ≡ format_address svc.sdk address)
      × (new.account_type ≡ account_type_custodial)
      × Copies encrypted key 0 new.keys
      × (length new.keys ≡ uint32 svc.cfg.default_account_key_count)
      × (builder.is_empty address ≡ false)
      × ((r : TransactionResult E) × (id : Text) × (w : W) × ((fc.get_transaction_result id w).0
            ≡ ok r)
          × (r.status ≡ sealed)
          × (address ≡ new_address svc r.events))

  -- So is one whose key the manager has generated.
  pub IsCreated : Account → Type 0
  IsCreated a =
      (key : AccountKey) × (private : Private) × (u : W) × ((km.generate_default u).0
        ≡ ok (key, private))
      × IsStored key private a

  insert_account_returned :
      (a b : Account) (w w' : W)
      → insert_account svc a w ≡ returned b w'
      → ((store.insert_account a w).0 ≡ none) × ((store.insert_account a w).1 ≡ b)
  insert_account_returned a b w w' h = elim (Option-cases (store.insert_account a w).0) [
    | inl e ↦ (e, ground arith)
    | inr (x, e) ↦ absurd (ground arith)
  ]

  await_sealed :
      (id : Text) (r : TransactionResult E) (w w' : W)
      → await svc id w ≡ returned r w'
      → (u : W) × ((fc.get_transaction_result id u).0 ≡ ok r) × (r.status ≡ sealed)
  await_sealed id r w w' h =
      let (waited, answer) = svc.patience.answers id w in
      elim (Option-cases waited.1) [
        | inr (e, x) ↦ absurd (ground arith)
        | inl clean ↦ elim (Option-cases waited.0) [
          | inl x ↦ absurd (ground arith)
          | inr (t, x) ↦
              let same : t ≡ r = ground arith in
              let pair : waited ≡ (some r, none) = ap₂ (λ a b. (a, b)) (x ∙ ap some same) clean in
              let (u, given, status, fine) =
                wait_for_seal_sealed fc id (svc.patience.rounds id w) w r (answer ∙ ap some pair) in
              (u, given, status)
        ]
      ]

  store_account-returned :
      (address : A) (key : AccountKey) (private : Private) (a : Account) (w w' : W)
      → store_account svc address key private w ≡ returned a w'
      → (encrypted : Storable) × (u v : W) × ((km.save private u).0 ≡ ok encrypted)
        × ((store.insert_account (account_with svc address encrypted key) v).0 ≡ none)
        × ((store.insert_account (account_with svc address encrypted key) v).1 ≡ a)
  unfolding store_account
  store_account-returned address key private a w w' h =
      let (encrypted, v, kept, rest) = and_then-returned h in
      let (account, u, inserted, told) = and_then-returned rest in
      let (_, _, _, last) = and_then-returned told in
      let (done, _) = returned_inj last in
      let (fine, made) = insert_account_returned _ account v u inserted in
      (encrypted, w, v, (of_result-returned kept).0, fine, made ∙ done)

  send_creation-IsStored :
      (key : AccountKey) (private : Private) (proposer payer : _) (draft : Tx) (a : Account)
      (id : Text) (w w' : W)
      → send_creation svc key private proposer payer draft w ≡ returned (a, id) w'
      → IsStored key private a
  unfolding send_creation IsStored send_and_await
  send_creation-IsStored key private proposer payer draft a id w w' h =
      let (tx, w₁, _, h₁) = and_then-returned h in
      let (signed, w₂, _, h₂) = and_then-returned h₁ in
      let (result, w₃, waited, h₃) = and_then-returned h₂ in
      let (_, w₄, tested, h₄) = and_then-returned h₃ in
      let (account, w₅, stored, h₅) = and_then-returned h₄ in
      let (same, _) = returned_inj h₅ in
      let (_, w₆, _, awaited) = and_then-returned waited in
      let (u, given, status) = await_sealed (builder.tx_id signed) result w₆ w₃ awaited in
      let address = new_address svc result.events in
      let (fine, _) = of_error-returned tested in
      let there : builder.is_empty address ≡ false = ground arith in
      let (encrypted, w₆, v, kept, inserted, made) =
        store_account-returned address key private account w₄ w₅ stored in
      let (copied, size) =
        clones-Copies 0 (uint32 svc.cfg.default_account_key_count) encrypted key key in
      (
        address,
        encrypted,
        account_with svc address encrypted key,
        w₆,
        v,
        kept,
        inserted,
        made ∙ ap (λ p. p.0) same,
        refl,
        refl,
        copied,
        size,
        there,
        (result, builder.tx_id signed, u, given, status, refl),
      )

  creation_of-IsStored :
      (key : AccountKey) (private : Private) (proposer payer : _) (block : Text) (draft : Result Tx)
      (a : Account) (id : Text) (w w' : W)
      → creation_of svc key private proposer payer block draft w ≡ returned (some (a, id)) w'
      → IsStored key private a
  unfolding creation_of
  creation_of-IsStored key private proposer payer block (err e) a id w w' h = absurd (ground arith)
  creation_of-IsStored key private proposer payer block (ok tx) a id w w' h =
      let (created, v, sent, last) = and_then-returned h in
      let (same, _) = returned_inj last in
      send_creation-IsStored key private proposer payer _ a id w v
        (sent ∙ ap (λ c. returned c v) (some_inj same))

  -- An account that createAccount returns without an error is the one that the store has made of a
  -- custodial account, at an address that is not the zero address and that a sealed transaction's
  -- events tell of, with the configured number of keys, whose indices count up from 0 and which are
  -- else copies of what Save has made of the private key that the key manager has generated, with
  -- the public key generated beside it.
  pub create_account-IsCreated :
      (a : Account) (id : Text) (w w' : W)
      → create_account svc w ≡ returned (some (a, id)) w'
      → IsCreated a
  unfolding create_account IsCreated
  create_account-IsCreated a id w w' h =
      let (_, w₁, _, h₁) = and_then-returned h in
      let (payer, w₂, _, h₂) = and_then-returned h₁ in
      let (proposer, w₃, _, h₃) = and_then-returned h₂ in
      let (block, w₄, _, h₄) = and_then-returned h₃ in
      let ((key, private), w₅, generated, h₅) = and_then-returned h₄ in
      (
        key,
        private,
        w₄,
        (of_result-returned generated).0,
        creation_of-IsStored key private proposer payer block _ a id w₅ w' h₅,
      )

  -- What createAccount returns where it builds the transaction from `draft`: nil for both where the SDK has refused.
  abbrev pub Outcome : Result Tx → Option (Account × Text) → Type 0
  Outcome draft created =
      ((e : GoError) × (draft ≡ err e) × (created ≡ none))
      ⊎ ((tx : Tx) × (c : Account × Text) × (draft ≡ ok tx) × (created ≡ some c))

  creation_of_lem :
      (key : AccountKey) (private : Private) (proposer payer : _) (block : Text) (draft : Result Tx)
      (created : _) (w w' : W)
      → creation_of svc key private proposer payer block draft w ≡ returned created w'
      → Outcome draft created
  unfolding creation_of
  creation_of_lem key private proposer payer block (err e) created w w' h =
      inl (e, refl, sym (returned_inj h).0)
  creation_of_lem key private proposer payer block (ok tx) created w w' h =
      let (c, v, _, last) = and_then-returned h in inr (tx, c, refl, sym (returned_inj last).0)

  execute_nil :
      (j : Job) (w w' : W)
      → text_eq j.job_type account_create_job_type ≡ true
      → create_account svc w ≡ returned none w'
      → (execute_account_create_job svc j w).1 ≡ panicked w'
  unfolding execute_account_create_job created_or_panic and_then deref
  execute_nil j w w' same h = rw (same, execute_account_create_job) (rw h refl)

  -- Where createAccount returns without an error, it has generated a key, and returns no account
  -- exactly if the SDK has refused to build the transaction from the configured number of copies of
  -- this key for the payer; the executor of an account_create job then panics.
  pub create_account_refused :
      (created : Option (Account × Text)) (j : Job) (w w' : W)
      → text_eq j.job_type account_create_job_type ≡ true
      → create_account svc w ≡ returned created w'
      → ((key : AccountKey) × (private : Private) × (payer : Authorizer A) × (u v : W)
          × ((km.generate_default u).0 ≡ ok (key, private))
          × ((km.admin_authorizer v).0 ≡ ok payer)
          × Outcome
              (builder.create_account
                (clones_from 0 (uint32 svc.cfg.default_account_key_count) key)
                payer.address)
              created)
        × (created ≡ none → (execute_account_create_job svc j w).1 ≡ panicked w')
  unfolding create_account
  create_account_refused created j w w' typed h =
      let (_, w₁, _, h₁) = and_then-returned h in
      let (payer, w₂, paid, h₂) = and_then-returned h₁ in
      let (proposer, w₃, _, h₃) = and_then-returned h₂ in
      let (block, w₄, _, h₄) = and_then-returned h₃ in
      let ((key, private), w₅, generated, h₅) = and_then-returned h₄ in
      (
        (
          key,
          private,
          payer,
          w₄,
          w₁,
          (of_result-returned generated).0,
          (of_result-returned paid).0,
          creation_of_lem key private proposer payer block _ created w₅ w' h₅,
        ),
        λ nothing. execute_nil j w w' typed (h ∙ ap (λ c. returned c w') nothing),
      )
