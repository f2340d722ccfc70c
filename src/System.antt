-- ===== src/System.antt =====
-- system/system.go, system/service.go, system/store.go, system/store_gorm.go: maintenance mode and
-- the pause. Times and durations are nanoseconds; durations are not negative.
pub mod Halting
pub mod Tests
use flow_wallet_api.Prelude.{
  ℕ, ◌+◌, ◌≡◌, ◌≢◌, Bool, true, false, ◌&&◌, ◌||◌, Option, none, some, Text, bytes, ltb, ◌==◌,
  if◌then◌else◌,
}
use flow_wallet_api.Errors.{GoError, plain, Result, ok, err}

-- database/sql NullTime
pub record NullTime : Type 0 where
  pub time : ℕ
  pub valid : Bool

pub record Settings : Type 0 where
  pub id : ℕ
  pub maintenance_mode : Bool
  pub paused_since : NullTime

-- PausedSince.Time.After(time.Now().Add(-pauseDuration)), written without a subtraction.
unfoldable pub is_paused : ℕ → ℕ → Settings → Bool
is_paused pause_duration now s =
    s.paused_since.valid && ltb now (s.paused_since.time + pause_duration)

-- The interface Store, and the clock. `settings` is the row of system_settings, or the default row
-- that FirstOrCreate will insert; the laws say what GormStore is relied on for.
pub record SettingsStore (W : Type 0) : Type 0 where
  pub now : W → ℕ
  pub get_settings : W → Result Settings × W
  pub save_settings : Settings → W → Option GoError × W
  pub settings : W → Settings
  pub get_reads : (w : W) (s : Settings) → (get_settings w).0 ≡ ok s → s ≡ settings w
  pub get_id : (w : W) (s : Settings) → (get_settings w).0 ≡ ok s → s.id ≢ 0
  pub get_keeps : (w : W) → settings (get_settings w).1 ≡ settings w
  pub save_writes :
      (s : Settings) (w : W) → (save_settings s w).0 ≡ none → settings (save_settings s w).1 ≡ s
  pub save_fails :
      (s : Settings) (w : W) (e : GoError)
      → (save_settings s w).0 ≡ some e
      → settings (save_settings s w).1 ≡ settings w

-- system.Service, as far as the worker pool and the event listener call it.
pub record SystemService (W : Type 0) : Type 0 where
  pub is_halted : W → Result Bool × W
  pub pause : W → Option GoError × W

abbrev pub no_id_error : GoError
no_id_error = plain (bytes "settings object has no ID, get an existing settings first and alter it")

module _ {W : Type 0} (store : SettingsStore W) where
  -- ServiceImpl.SaveSettings
  unfoldable pub save_settings : Settings → W → Option GoError × W
  save_settings s w = if s.id == 0 then (some no_id_error, w) else store.save_settings s w

  -- What Pause and Resume have in common: read the settings, set the time, save.
  set_paused : Bool → W → Option GoError × W
  unfolding save_settings
  set_paused valid w =
      let (r, w') = store.get_settings w in
      elim r [
        | err e ↦ (some e, w')
        | ok s ↦
            save_settings
              (record s { paused_since = record { time = store.now w'; valid = valid } }) w'
      ]

  -- ServiceImpl.Pause
  unfoldable pub pause : W → Option GoError × W
  unfolding set_paused
  pause = set_paused true

  -- ServiceImpl.Resume
  unfoldable pub resume : W → Option GoError × W
  unfolding set_paused
  resume = set_paused false

  -- ServiceImpl.IsHalted
  unfoldable pub is_halted : ℕ → W → Result Bool × W
  unfolding is_paused
  is_halted pause_duration w =
      let (r, w') = store.get_settings w in
      elim r [
        | err e ↦ (err e, w')
        | ok s ↦ (ok (s.maintenance_mode || is_paused pause_duration (store.now w') s), w')
      ]

  -- NewService, as the interface that the other components hold.
  unfoldable pub new_service : ℕ → SystemService W
  unfolding is_halted pause
  new_service pause_duration = record { is_halted = is_halted pause_duration; pause = pause }
