-- ===== src/System/Halting.antt =====
-- What Pause, Resume and IsHalted (system/service.go) do to one another.
use flow_wallet_api.Prelude.{
  ℕ, ◌+◌, ◌≡◌, refl, ◌∙◌, inl, inr, Bool, true, false, ◌&&◌, ◌||◌, none, arith, ltb,
}
use flow_wallet_api.Errors.{ok, Result-cases}
use flow_wallet_api.System.{NullTime, SettingsStore, set_paused, pause, resume, is_halted}

or_false : (b : Bool) → (b || false) ≡ b
or_false true = refl
or_false false = refl

module _ {W : Type 0} (store : SettingsStore W) where
  open store use {now, get_settings, settings}

  -- A call that succeeds writes the time and the flag, and leaves the rest of the row.
  set_paused_writes :
      (valid : Bool) (w : W)
      → (set_paused store valid w).0 ≡ none
      → settings (set_paused store valid w).1 ≡ record (settings w) {
        paused_since = record { time = now (get_settings w).1; valid = valid };
      }
  unfolding set_paused
  set_paused_writes valid w h = elim (Result-cases (get_settings w).0) [
    | inl (s, e) ↦
        let t : NullTime = record { time = now (get_settings w).1; valid = valid } in
        ground (
          arith,
          store.get_reads w s e,
          store.save_writes (record s { paused_since = t }) (get_settings w).1,
        )
    | inr (x, e) ↦ ground arith
  ]

  is_halted_reads :
      (duration : ℕ) (v : W) (halted : Bool)
      → (is_halted store duration v).0 ≡ ok halted
      → halted ≡ (
          (settings v).maintenance_mode
          || ((settings v).paused_since.valid
              && ltb (now (get_settings v).1) ((settings v).paused_since.time + duration)))
  unfolding is_halted
  is_halted_reads duration v halted h = elim (Result-cases (get_settings v).0) [
    | inl (s, e) ↦ ground (arith, store.get_reads v s e)
    | inr (x, e) ↦ ground arith
  ]

  -- After a successful Pause, while nobody writes the settings, a successful IsHalted says true
  -- exactly if maintenance mode was on or less than the pause duration has passed between the two
  -- clock readings.
  pub pause-is_halted :
      (duration : ℕ) (w v : W) (halted : Bool)
      → (pause store w).0 ≡ none
      → settings v ≡ settings (pause store w).1
      → (is_halted store duration v).0 ≡ ok halted
      → halted ≡ (
          (settings w).maintenance_mode
          || ltb (now (get_settings v).1) (now (get_settings w).1 + duration))
  unfolding pause
  pause-is_halted duration w v halted p e h =
      is_halted_reads duration v halted h ∙ rw (e, set_paused_writes true w p) refl

  -- After a successful Resume, while nobody writes the settings, a successful IsHalted says whether
  -- maintenance mode was on.
  resume-is_halted :
      (duration : ℕ) (w v : W) (halted : Bool)
      → (resume store w).0 ≡ none
      → settings v ≡ settings (resume store w).1
      → (is_halted store duration v).0 ≡ ok halted
      → halted ≡ (settings w).maintenance_mode
  unfolding resume
  resume-is_halted duration w v halted p e h =
      is_halted_reads duration v halted h
      ∙ rw (e, set_paused_writes false w p) (or_false (settings w).maintenance_mode)
