-- ===== src/Tests/Sample.antt =====
-- A machine after boot, and native code that does nothing.
use windows_10_js.Prelude.{◌*◌, []}
use windows_10_js.Hal.Memory.{Memory}
use windows_10_js.Ke.Machine.{Machine, Native}

abbrev pub zeros : Memory
zeros a = 0

abbrev pub booted : Machine
booted = record {
  memory = zeros;
  irql = 0;
  dpc_queue = [];
  js_dpcs = [];
  work_queue = [];
  js_items = [];
  active_timers = [];
  readings = 0;
  current_thread = 0;
}

-- The clock shows 50 units of 100 ns more at each reading.
abbrev pub idle : Native
idle = record {
  exec = λ routine args m. m;
  call_js = λ routine args m. m;
  uptime = λ n. n * 50;
  boot_time = 1000;
}
