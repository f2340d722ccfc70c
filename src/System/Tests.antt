-- ===== src/System/Tests.antt =====
-- Examples for system/: the settings row and the clock in memory.
use flow_wallet_api.Prelude.{
  ℕ, suc, ◌+◌, ◌≡◌, ◌≢◌, refl, true, false, ◌||◌, none, some, arith, ltb, ◌==◌, if◌then◌else◌,
}
use flow_wallet_api.Errors.{GoError, record_not_found, Result, ok, err}
use flow_wallet_api.System.{
  Settings, SettingsStore, set_paused, save_settings, is_paused, pause, is_halted,
}
use flow_wallet_api.System.Halting.{pause-is_halted}

record Memory : Type 0 where
  clock : ℕ
  row : Settings

-- A row without an id cannot be read.
abbrev read_row : Memory → Result Settings
read_row w = if w.row.id == 0 then err record_not_found else ok w.row

read_row_reads : (w : Memory) (s : Settings) → read_row w ≡ ok s → s ≡ w.row
read_row_reads w s h = ground arith

read_row_id : (w : Memory) (s : Settings) → read_row w ≡ ok s → s.id ≢ 0
read_row_id w s h = ground arith

never_fails : {e : GoError} {s t : Settings} → none ≡ some e → s ≡ t
never_fails q = ground arith

abbrev store : SettingsStore Memory
store = record {
  now = λ w. w.clock;
  get_settings = λ w. (read_row w, record w { clock = suc w.clock });
  save_settings = λ s w. (none, record w { row = s });
  settings = λ w. w.row;
  get_reads = read_row_reads;
  get_id = read_row_id;
  get_keeps = λ w. refl;
  save_writes = λ s w h. refl;
  save_fails = λ s w e h. never_fails {e = e} h;
}

abbrev running : Memory
running = record {
  clock = 100;
  row = record {
    id = 1;
    maintenance_mode = false;
    paused_since = record { time = 0; valid = false };
  };
}

-- The clock says 101 when Pause and Resume read it.
pause-is_halted_example : true ≡ (false || ltb 102 (101 + 60))
unfolding pause set_paused save_settings is_halted is_paused
pause-is_halted_example =
    pause-is_halted store 60 running (pause store running).1 true refl refl refl
