-- ===== src/Handlers/Settings.antt =====
-- handlers/system.go, with ToJSON and FromJSON of system/system.go: reading and changing the settings.
-- encoding/json is a parameter: `decode` fills in the fields that the body has, over existing ones.
pub mod Change
pub mod Tests
use flow_wallet_api.Prelude.{ℕ, Bool, Option, none, some, Text, bytes}
use flow_wallet_api.Errors.{GoError, plain, request_error, Result, ok, err}
use flow_wallet_api.System.{Settings, SettingsStore, save_settings}
use flow_wallet_api.Handlers.{Response, handle_error}

pub record SettingsJson : Type 0 where
  pub maintenance_mode : Bool

-- Settings.ToJSON
abbrev pub to_json : Settings → SettingsJson
to_json s = record { maintenance_mode = s.maintenance_mode }

-- Settings.FromJSON
abbrev pub from_json : SettingsJson → Settings → Settings
from_json j s = record s { maintenance_mode = j.maintenance_mode }

abbrev pub empty_body_error : GoError
empty_body_error = request_error 400 (plain (bytes "empty body"))

abbrev pub invalid_body_error : GoError
invalid_body_error = request_error 400 (plain (bytes "invalid body"))

pub record SettingsCodec : Type 0 where
  pub decode : Text → SettingsJson → Result SettingsJson
  pub encode : SettingsJson → Text

-- handleJsonResponse with http.StatusOK
abbrev pub json_response : SettingsCodec → Settings → Response
json_response c s = record { status = 200; body = c.encode (to_json s) }

module _ {W : Type 0} (store : SettingsStore W) (codec : SettingsCodec) where
  -- System.GetSettings
  unfoldable pub get_settings : W → Response × W
  get_settings w =
      let (r, w') = store.get_settings w in
      elim r [ err e ↦ (handle_error e, w') | ok s ↦ (json_response codec s, w') ]

  -- The end of SetSettings: save and answer.
  save_and_answer : Settings → W → Response × W
  unfolding save_settings
  save_and_answer s w =
      let (e, w') = save_settings store s w in
      elim e [ some x ↦ (handle_error x, w') | none ↦ (json_response codec s, w') ]

  -- SetSettings, once the body is there.
  set_from : Text → W → Response × W
  set_from body w =
      let (r, w') = store.get_settings w in
      elim r [
        | err e ↦ (handle_error e, w')
        | ok s ↦ elim (codec.decode body (to_json s)) [
          | err e ↦ (handle_error invalid_body_error, w')
          | ok j ↦ save_and_answer (from_json j s) w'
        ]
      ]

  -- System.SetSettings
  pub set_settings : Option Text → W → Response × W
  set_settings none w = (handle_error empty_body_error, w)
  set_settings (some body) w = set_from body w
