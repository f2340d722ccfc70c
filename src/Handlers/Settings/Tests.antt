-- ===== src/Handlers/Settings/Tests.antt =====
-- Examples for handlers/system.go: the world is the settings row, and a body that is not empty turns
-- maintenance mode on.
use flow_wallet_api.Prelude.{
  ◌≡◌, ◌≢◌, refl, true, false, none, some, arith, bytes, ◌==◌, if◌then◌else◌,
}
use flow_wallet_api.Errors.{GoError, record_not_found, Result, ok, err}
use flow_wallet_api.System.{Settings, SettingsStore}
use flow_wallet_api.Handlers.Settings.{SettingsCodec, save_and_answer, set_from, set_settings}

abbrev read_row : Settings → Result Settings
read_row s = if s.id == 0 then err record_not_found else ok s

read_row_reads : (w s : Settings) → read_row w ≡ ok s → s ≡ w
read_row_reads w s h = ground arith

read_row_id : (w s : Settings) → read_row w ≡ ok s → s.id ≢ 0
read_row_id w s h = ground arith

never_fails : {e : GoError} {s t : Settings} → none ≡ some e → s ≡ t
never_fails q = ground arith

abbrev store : SettingsStore Settings
store = record {
  now = λ w. 0;
  get_settings = λ w. (read_row w, w);
  save_settings = λ s w. (none, s);
  settings = λ w. w;
  get_reads = read_row_reads;
  get_id = read_row_id;
  get_keeps = λ w. refl;
  save_writes = λ s w h. refl;
  save_fails = λ s w e h. never_fails {e = e} h;
}

abbrev codec : SettingsCodec
codec = record {
  decode = λ body j. ok (record { maintenance_mode = true });
  encode = λ j. if j.maintenance_mode then bytes "on" else bytes "off";
}

abbrev paused : Settings
paused = record {
  id = 1;
  maintenance_mode = false;
  paused_since = record { time = 5; valid = true };
}

turned_on :
    (set_settings store codec (some (bytes "on")) paused).1
    ≡ record paused { maintenance_mode = true }
unfolding set_settings set_from save_and_answer
turned_on = refl
