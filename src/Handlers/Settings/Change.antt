-- ===== src/Handlers/Settings/Change.antt =====
-- SetSettings (handlers/system.go).
use flow_wallet_api.Prelude.{
  ◌≡◌, refl, sym, ap, ◌∙◌, ◌⊎◌, inl, inr, none, some, arith, Text, Option-cases,
}
use flow_wallet_api.Errors.{GoError, ok, Result-cases}
use flow_wallet_api.System.{Settings, SettingsStore, save_settings}
use flow_wallet_api.Handlers.{Response}
use flow_wallet_api.Handlers.Settings.{
  SettingsJson, SettingsCodec, to_json, from_json, json_response, save_and_answer, set_from,
  set_settings,
}

module _ {W : Type 0} (store : SettingsStore W) (codec : SettingsCodec) where
  open store use {settings}

  save_settings_ok :
      (s : Settings) (w : W)
      → (save_settings store s w).0 ≡ none
      → settings (save_settings store s w).1 ≡ s
  unfolding save_settings
  save_settings_ok s w h = ground (arith, store.save_writes s w)

  save_settings_fails :
      (s : Settings) (w : W) {e : GoError}
      → (save_settings store s w).0 ≡ some e
      → settings (save_settings store s w).1 ≡ settings w
  unfolding save_settings
  save_settings_fails s w {e} h = ground (arith, store.save_fails s w e)

  -- The settings after a request, and its answer, are those of a change of maintenance mode only.
  pub Changed : Text → W → Response × W → Type 0
  Changed body w after =
      (j : SettingsJson) × (codec.decode body (to_json (settings w)) ≡ ok j)
      × (after.0 ≡ json_response codec (from_json j (settings w)))
      × (settings after.1 ≡ from_json j (settings w))

  save_and_answer_lem :
      (s : Settings) (w : W)
      → ((save_and_answer store codec s w).0 ≡ json_response codec s)
          × (settings (save_and_answer store codec s w).1 ≡ s)
        ⊎ (settings (save_and_answer store codec s w).1 ≡ settings w)
  unfolding save_and_answer
  save_and_answer_lem s w = elim (Option-cases (save_settings store s w).0) [
    | inl e ↦ rw (e, save_and_answer) (inl (refl, save_settings_ok s w e))
    | inr (x, e) ↦ rw (e, save_and_answer) (inr (save_settings_fails s w {e = x} e))
  ]

  -- SetSettings either changes the maintenance mode to what the body says over the stored mode,
  -- leaves the pause and the rest of the row alone and answers with the new mode, or it leaves the
  -- settings as they were.
  set_settings_lem :
      (body : Text) (w : W)
      → Changed body w (set_settings store codec (some body) w)
        ⊎ (settings (set_settings store codec (some body) w).1 ≡ settings w)
  unfolding set_settings set_from Changed
  set_settings_lem body w = elim (Result-cases (store.get_settings w).0) [
    | inr (x, r) ↦ inr (rw (r, set_from) (store.get_keeps w))
    | inl (s, r) ↦ elim (Result-cases (codec.decode body (to_json s))) [
      | inr (x, d) ↦ inr (rw (r, set_from) (rw d (store.get_keeps w)))
      | inl (j, d) ↦
          let same : s ≡ settings w = store.get_reads w s r in
          let w' = (store.get_settings w).1 in
          rw (r, set_from)
            (rw d (elim (save_and_answer_lem (from_json j s) w') [
              | inl (answered, stored) ↦ inl (
                j,
                ap (λ k. codec.decode body (to_json k)) (sym same) ∙ d,
                answered ∙ ap (λ k. json_response codec (from_json j k)) same,
                stored ∙ ap (from_json j) same,
              )
              | inr kept ↦ inr (kept ∙ store.get_keeps w)
            ]))
    ]
  ]
