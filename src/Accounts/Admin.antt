-- ===== src/Accounts/Admin.antt =====
-- accounts/service_init.go: the admin account and its proposal keys.
pub mod Tests
use flow_wallet_api.Prelude.{
  ℕ, ◌-◌, Bool, true, false, not, Option, none, some, List, [], ◌∷◌, Text, bytes, text_eq, contains,
  ltb, if◌then◌else◌, ◌≡◌, ◌≤◌, ◌<◌, ◌⊎◌, inl, inr, refl, sym, ap, ◌∙◌, subst, arith, Bool-cases,
  Option-cases, ltb→lt,
}
use flow_wallet_api.Errors.{
  GoError, plain, wrap_after, wrap_before, error_text, Result, ok, err, Result-cases,
}
use flow_wallet_api.Call.{
  Run, returned, failed, Call, pure, throw, lift, try, check, modify, of_result, of_error, and_then,
  ◌>>=◌, ◌>>◌, and_then-returned, of_result-returned, of_error-returned, try-returned,
}
use flow_wallet_api.FlowHelpers.{wait_for_seal}
use flow_wallet_api.Transactions.{Authorizer}
use flow_wallet_api.Keys.Types.{admin_proposal_key_count_mismatch}
use flow_wallet_api.Accounts.Types.{Account, no_account, ServiceImpl, trigger}
use flow_wallet_api.Accounts.Creation.{max_gas_limit, insert_account}

-- errors.Is(err, keys.ErrAdminProposalKeyCountMismatch), with that error known by its text.
unfoldable pub is_mismatch : GoError → Bool
is_mismatch (plain t) = text_eq t (error_text admin_proposal_key_count_mismatch)
is_mismatch (wrap_after t e) = is_mismatch e
is_mismatch (wrap_before e t) = is_mismatch e
is_mismatch _ = false

module _ {W A Tx E : Type 0} (svc : ServiceImpl W A Tx E) where
  open svc use {cfg, store, km, fc, patience, sdk, builder, codec, handlers}

  -- SendAndWait, of which only the error is read.
  abbrev pub send_and_check : Tx → Call W (Unit {0})
  send_and_check tx = do
    check (fc.send_transaction tx)
    check (λ w. (
      (patience.answers (builder.tx_id tx) w).0.1,
      (wait_for_seal fc (patience.rounds (builder.tx_id tx) w) (builder.tx_id tx) w).1,
    ))

  -- The transaction that addAdminProposalKeys sends.
  proposal_key_tx : ℕ → Authorizer A → Text → Result Tx
  proposal_key_tx count payer block =
      let draft =
        builder.set_script cfg.add_proposal_key
          (builder.prepare block payer payer.address max_gas_limit builder.new_transaction) in
      elim (builder.add_argument (codec.new_int cfg.admin_key_index) draft) [
        | err e ↦ err e
        | ok tx ↦ elim (builder.add_argument (codec.new_uint16 count) tx) [
          | err e ↦ err e
          | ok tx' ↦ builder.sign_envelope payer (builder.add_authorizer payer.address tx')
        ]
      ]

  -- addAdminProposalKeys
  pub add_admin_proposal_keys : ℕ → Call W (Unit {0})
  add_admin_proposal_keys count = do
    payer ← lift km.admin_authorizer
    block ← lift fc.latest_block_id
    tx ← try (proposal_key_tx count payer block)
    send_and_check tx

  -- The pair that InitAdminProposalKeys returns.
  abbrev pub init_keys : Call W ℕ
  init_keys w =
      let (count, e, w') = km.init_admin_proposal_keys w in
      elim e [ none ↦ returned count w' | some x ↦ failed x w' ]

  -- InitAdminAccount, where proposal keys are missing on the chain.
  abbrev pub add_missing : ℕ → Call W (Unit {0})
  add_missing missing = do add_admin_proposal_keys missing; _ ← init_keys; pure tt

  -- InitAdminAccount, where the count of proposal keys does not match.
  pub fill_proposal_keys : Call W (Unit {0})
  fill_proposal_keys = do
    count ← init_keys
    if ltb count cfg.admin_proposal_key_count
        then add_missing (cfg.admin_proposal_key_count - count)
        else pure tt

  pub check_proposal_keys : Call W (Unit {0})
  check_proposal_keys w =
      let (e, w') = km.check_admin_proposal_key_count w in
      let filled = fill_proposal_keys w' in
      elim e [ none ↦ returned tt w' | some x ↦ if is_mismatch x then filled else failed x w' ]

  -- The admin account that is not in the database yet.
  add_admin_account : Call W (Unit {0})
  add_admin_account = do
    account ← insert_account svc (record no_account { address = cfg.admin_address })
    modify (trigger handlers (sdk.hex_to_address cfg.admin_address))

  pub ensure_admin_account : Call W (Unit {0})
  ensure_admin_account w =
      let (r, w') = store.account cfg.admin_address w in
      let added = add_admin_account w' in
      elim r [
        | ok a ↦ returned tt w'
        | err e ↦ if contains (error_text e) (bytes "record not found") then added else failed e w'
      ]

  -- InitAdminAccount
  pub init_admin_account : Call W (Unit {0})
  init_admin_account = do ensure_admin_account; check_proposal_keys

  -- A transaction was built with the code that adds proposal keys and two arguments, the index of the admin's key and
  -- this number of keys; the payer has signed it, and it was sent and waited for without an error.
  pub HasAdded : ℕ → Type 0
  HasAdded missing =
      (payer : Authorizer A) × (block : Text) × (draft full signed : Tx) × (x u v : W)
      × ((km.admin_authorizer x).0 ≡ ok payer)
      × (builder.add_argument (codec.new_int cfg.admin_key_index) (
            builder.set_script cfg.add_proposal_key
              (builder.prepare block payer payer.address max_gas_limit builder.new_transaction))
          ≡ ok draft)
      × (builder.add_argument (codec.new_uint16 missing) draft ≡ ok full)
      × (builder.sign_envelope payer (builder.add_authorizer payer.address full) ≡ ok signed)
      × ((fc.send_transaction signed u).0 ≡ none)
      × ((patience.answers (builder.tx_id signed) v).0.1 ≡ none)

  proposal_key_tx_lem :
      (count : ℕ) (payer : Authorizer A) (block : Text) (signed : Tx)
      → proposal_key_tx count payer block ≡ ok signed
      → (draft full : Tx) × (builder.add_argument (codec.new_int cfg.admin_key_index) (
            builder.set_script cfg.add_proposal_key
              (builder.prepare block payer payer.address max_gas_limit builder.new_transaction))
          ≡ ok draft)
        × (builder.add_argument (codec.new_uint16 count) draft ≡ ok full)
        × (builder.sign_envelope payer (builder.add_authorizer payer.address full) ≡ ok signed)
  unfolding proposal_key_tx
  proposal_key_tx_lem count payer block signed h =
      let start =
        builder.set_script cfg.add_proposal_key
          (builder.prepare block payer payer.address max_gas_limit builder.new_transaction) in
      elim (Result-cases (builder.add_argument (codec.new_int cfg.admin_key_index) start)) [
        | inr (x, e) ↦ absurd (ground arith)
        | inl (draft, e) ↦
            elim (Result-cases (builder.add_argument (codec.new_uint16 count) draft)) [
              | inr (x, f) ↦ absurd (ground arith)
              | inl (full, f) ↦ (draft, full, e, f, ground arith)
            ]
      ]

  add_admin_proposal_keys-HasAdded :
      (count : ℕ) (u : Unit {0}) (w w' : W)
      → add_admin_proposal_keys count w ≡ returned u w'
      → HasAdded count
  unfolding add_admin_proposal_keys HasAdded
  add_admin_proposal_keys-HasAdded count u w w' h =
      let (payer, _, paid, h₁) = and_then-returned h in
      let (block, _, _, h₂) = and_then-returned h₁ in
      let (signed, v, built, h₃) = and_then-returned h₂ in
      let (_, v', sent, waited) = and_then-returned h₃ in
      let (draft, full, first, second, last) =
        proposal_key_tx_lem count payer block signed (try-returned built).0 in
      (
        payer,
        block,
        draft,
        full,
        signed,
        w,
        v,
        v',
        (of_result-returned paid).0,
        first,
        second,
        last,
        (of_error-returned sent).0,
        (of_error-returned waited).0,
      )

  -- InitAdminProposalKeys has returned a count, and this is at least the configured one, or as many keys as were
  -- missing have been added on the chain and InitAdminProposalKeys has then returned again without an error.
  pub IsFilled : Type 0
  IsFilled =
      (count : ℕ) × (u : W) × ((km.init_admin_proposal_keys u).0 ≡ count)
      × ((km.init_admin_proposal_keys u).1 ≡ none)
      × ((cfg.admin_proposal_key_count ≤ count)
          ⊎ ((count < cfg.admin_proposal_key_count)
              × HasAdded (cfg.admin_proposal_key_count - count)
              × ((x : W) × ((km.init_admin_proposal_keys x).1 ≡ none))))

  init_keys_lem :
      (count : ℕ) (w w' : W)
      → init_keys w ≡ returned count w'
      → ((km.init_admin_proposal_keys w).0 ≡ count) × ((km.init_admin_proposal_keys w).1 ≡ none)
  init_keys_lem count w w' h = elim (Option-cases (km.init_admin_proposal_keys w).1) [
    | inr (x, e) ↦ absurd (ground arith)
    | inl e ↦ (ground arith, e)
  ]

  fill_proposal_keys-IsFilled :
      (u : Unit {0}) (w w' : W) → fill_proposal_keys w ≡ returned u w' → IsFilled
  unfolding fill_proposal_keys IsFilled
  fill_proposal_keys-IsFilled u w w' h =
      let (count, v, first, rest) = and_then-returned h in
      elim (Bool-cases (ltb count cfg.admin_proposal_key_count)) [
        | inr e ↦
            let (given, fine) = init_keys_lem count w v first in
            (count, w, given, fine, inl (ground arith))
        | inl e ↦
            let missing = cfg.admin_proposal_key_count - count in
            let added : add_missing missing v ≡ returned u w' = sym (rw e refl) ∙ rest in
            let (_, x, sent, last) = and_then-returned added in
            let (again, y, second, _) = and_then-returned last in
            let (given, fine) = init_keys_lem count w v first in
            (
              count,
              w,
              given,
              fine,
              inr (
                ltb→lt _ _ e,
                add_admin_proposal_keys-HasAdded missing tt v x sent,
                (x, (init_keys_lem again x y second).1),
              ),
            )
      ]

  -- Where InitAdminAccount returns without an error, CheckAdminProposalKeyCount has found enough
  -- proposal keys, or they were initialised anew: with at least the configured count, or else a
  -- transaction with the code that adds proposal keys, the index of the admin's key and the number
  -- of missing keys was signed, sent and waited for without an error, and they were initialised
  -- once more.
  pub init_admin_account-IsFilled :
      (u : Unit {0}) (w w' : W)
      → init_admin_account w ≡ returned u w'
      → ((v : W) × ((km.check_admin_proposal_key_count v).0 ≡ none)) ⊎ IsFilled
  unfolding init_admin_account check_proposal_keys
  init_admin_account-IsFilled u w w' h =
      let (_, v, _, checked) = and_then-returned h in
      elim (Option-cases (km.check_admin_proposal_key_count v).0) [
        | inl fine ↦ inl (v, fine)
        | inr (e, found) ↦ elim (Bool-cases (is_mismatch e)) [
          | inr other ↦ absurd (ground arith)
          | inl same ↦
              let v' = (km.check_admin_proposal_key_count v).1 in
              let filled : fill_proposal_keys v' ≡ returned u w' =
                sym (rw (found, check_proposal_keys) (rw same refl)) ∙ checked in
              inr (fill_proposal_keys-IsFilled u v' w' filled)
        ]
      ]
