-- ===== src/FlowHelpers/Waiting.antt =====
-- WaitForSeal (flow_helpers/flow_helpers.go): what it reports, and that it ends.
use flow_wallet_api.Prelude.{
  ℕ, zero, suc, ◌<◌, ◌≡◌, ◌≢◌, ◌⊎◌, refl, sym, ap, ◌∙◌, inl, inr, none, some, Text, arith,
  Option-cases,
}
use flow_wallet_api.Errors.{GoError, Result, ok, err}
use flow_wallet_api.FlowHelpers.{
  TransactionStatus, sealed, expired, other_status, TransactionResult, Client, Waited, on_answer,
  wait_for_seal,
}

status_cases :
    (s : TransactionStatus) → (s ≡ sealed) ⊎ ((s ≡ expired) ⊎ ((n : ℕ) × (s ≡ other_status n)))
status_cases sealed = inl refl
status_cases expired = inr (inl refl)
status_cases (other_status n) = inr (inr (n, refl))

module _ {W Tx E : Type 0} (fc : Client W Tx E) (id : Text) where
  open fc use {get_transaction_result, sleep}

  -- From `w` on, `n` answers in a row ask for another round, the last of which begins in `v`.
  pub data Pending : ℕ → W → W → Type 0 where
    here : {w : W} → Pending 0 w w
    there :
        {n : ℕ} {w v : W}
        → on_answer (get_transaction_result id w).0 ≡ none
        → Pending n (sleep (get_transaction_result id w).1) v
        → Pending (suc n) w v

  wait_pending :
      (fuel : ℕ) (w : W)
      → on_answer (get_transaction_result id w).0 ≡ none
      → wait_for_seal fc (suc fuel) id w
        ≡ wait_for_seal fc fuel id (sleep (get_transaction_result id w).1)
  unfolding wait_for_seal
  wait_pending fuel w e = rw (e, wait_for_seal) refl

  wait_answered :
      (fuel : ℕ) (w : W) {a : Waited E}
      → on_answer (get_transaction_result id w).0 ≡ some a
      → wait_for_seal fc (suc fuel) id w ≡ (some a, (get_transaction_result id w).1)
  unfolding wait_for_seal
  wait_answered fuel w e = rw (e, wait_for_seal) refl

  -- WaitForSeal returns what it makes of the first answer that ends the loop, if the fuel is larger
  -- than the number of pending answers before, and leaves the world as this answer has left it.
  wait_for_seal-Pending :
      (fuel : ℕ) {n : ℕ} {w v : W} (a : Waited E)
      → Pending n w v
      → on_answer (get_transaction_result id v).0 ≡ some a
      → n < fuel
      → wait_for_seal fc fuel id w ≡ (some a, (get_transaction_result id v).1)
  wait_for_seal-Pending zero a p e enough = ground arith
  wait_for_seal-Pending (suc fuel) a here e enough = wait_answered fuel _ e
  wait_for_seal-Pending (suc fuel) a (there p rest) e enough =
      wait_pending fuel _ p ∙ wait_for_seal-Pending fuel a rest e (omega arith)

  -- WaitForSeal ends under a timeout: if the client fails after n pending rounds, as it does once
  -- the deadline has passed, n + 1 rounds are enough, whatever the answers before.
  pub wait_for_seal_ends :
      (n : ℕ) (w : W)
      → ((v : W) → Pending n w v → (e : GoError) × ((get_transaction_result id v).0 ≡ err e))
      → (a : Waited E) × ((wait_for_seal fc (suc n) id w).0 ≡ some a)
  unfolding on_answer
  wait_for_seal_ends zero w deadline =
      let (e, failed) = deadline w here in
      ((none, some e), ap (λ p. p.0) (wait_answered 0 w (ap on_answer failed)))
  wait_for_seal_ends (suc n) w deadline =
      let w' = sleep (get_transaction_result id w).1 in
      elim (Option-cases (on_answer (get_transaction_result id w).0)) [
        | inr (a, e) ↦ (a, ap (λ p. p.0) (wait_answered (suc n) w e))
        | inl e ↦
            let (a, ended) = wait_for_seal_ends n w' (λ v rest. deadline v (there e rest)) in
            (a, ap (λ p. p.0) (wait_pending (suc n) w e) ∙ ended)
      ]

  on_answer_sealed :
      (r : Result (TransactionResult E)) (t : TransactionResult E)
      → on_answer r ≡ some (some t, none)
      → (r ≡ ok t) × (t.status ≡ sealed) × (t.error ≡ none)
  unfolding on_answer
  on_answer_sealed (err e) t h = ground arith
  on_answer_sealed (ok r) t h = elim (Option-cases r.error) [
    | inr (x, e) ↦ ground arith
    | inl e ↦ elim (status_cases r.status) [
      | inl s ↦
          let same : r ≡ t = ground arith in
          (ap ok same, ap (λ k. k.status) (sym same) ∙ s, ap (λ k. k.error) (sym same) ∙ e)
      | inr (inl s) ↦ ground arith
      | inr (inr (n, s)) ↦ ground arith
    ]
  ]

  -- WaitForSeal returns a result and no error only if the client has given this result, its status
  -- is sealed and it carries no error of the transaction.
  pub wait_for_seal_sealed :
      (fuel : ℕ) (w : W) (t : TransactionResult E)
      → (wait_for_seal fc fuel id w).0 ≡ some (some t, none)
      → (v : W) × ((get_transaction_result id v).0 ≡ ok t) × (t.status ≡ sealed) × (t.error ≡ none)
  unfolding wait_for_seal
  wait_for_seal_sealed zero w t h = ground arith
  wait_for_seal_sealed (suc fuel) w t h =
      elim (Option-cases (on_answer (get_transaction_result id w).0)) [
        | inr (a, e) ↦
            let (given, status, clean) =
              on_answer_sealed (get_transaction_result id w).0 t
                (e ∙ (sym (ap (λ p. p.0) (wait_answered fuel w e)) ∙ h)) in
            (w, given, status, clean)
        | inl e ↦ wait_for_seal_sealed fuel _ t (sym (ap (λ p. p.0) (wait_pending fuel w e)) ∙ h)
      ]

  on_answer_informs : (r : Result (TransactionResult E)) → on_answer r ≢ some (none, none)
  unfolding on_answer
  on_answer_informs (err e) h = ground arith
  on_answer_informs (ok r) h = elim (Option-cases r.error) [
    | inr (x, e) ↦ ground arith
    | inl e ↦ elim (status_cases r.status) [
      | inl s ↦ ground arith
      | inr (inl s) ↦ ground arith
      | inr (inr (n, s)) ↦ ground arith
    ]
  ]

  -- WaitForSeal never returns without a result and without an error.
  pub wait_for_seal_informs :
      (fuel : ℕ) (w : W) → (wait_for_seal fc fuel id w).0 ≢ some (none, none)
  unfolding wait_for_seal
  wait_for_seal_informs zero w h = ground arith
  wait_for_seal_informs (suc fuel) w h =
      elim (Option-cases (on_answer (get_transaction_result id w).0)) [
        | inr (a, e) ↦
            on_answer_informs (get_transaction_result id w).0
              (e ∙ (sym (ap (λ p. p.0) (wait_answered fuel w e)) ∙ h))
        | inl e ↦ wait_for_seal_informs fuel _ (sym (ap (λ p. p.0) (wait_pending fuel w e)) ∙ h)
      ]
