-- ===== src/Slots/Services/Examples.antt =====
-- pi/portal.py: a slot whose board is flashed, while another slot is being debugged.
use embedded_ai_harness.Prelude.{
  ◌≡◌, ◌≢◌, ℕ, refl, arith, eq_iff, true, false, none, some, [], ◌∷◌, String,
}
use embedded_ai_harness.Prelude.Dict.{get}
use embedded_ai_harness.Slots.{Slot, sample_slot, idle}
use embedded_ai_harness.Slots.Hotplug.{Env}
use embedded_ai_harness.Slots.Services.{Machine, process, timed_out, Flash}
use embedded_ai_harness.Slots.Services.Device.{Upload, Reading, flash_device, read_flash_device}
use embedded_ai_harness.Slots.Services.Device.Sessions.{
  Returns, device-Returns, flash_device-sessions,
}
use embedded_ai_harness.Debug.{Debugger, no_output}
use embedded_ai_harness.Debug as OpenOcd
use embedded_ai_harness.Debug.Sessions.Probes.{no_sessions-IsMarked}

abbrev env : Env
env = record {
  now = 0;
  stamp = 0;
  host_ip = "10.0.0.2";
  exists = λ _. true;
  is_alive = λ _. true;
  udev = λ _. none;
  scan = λ _. [];
}

-- esptool does not answer; the proxy listens in the third round.
abbrev machine : Machine
machine = record {
  proxy_exe = "/usr/local/bin/plain_rfc2217_server.py";
  exe_exists = true;
  host_ip = "10.0.0.2";
  settles = λ _. true;
  popen = λ _ _ _. process 4711;
  exit_code = none;
  listens = λ round port. embedded_ai_harness.Prelude.leb 2 round;
  esptool = λ _. timed_out;
  meanwhile = λ s. s;
}

abbrev running_slot : Slot
running_slot = record sample_slot {
  present = true;
  running = true;
  pid = some 99;
  devnode = some "/dev/ttyUSB0";
  state = idle;
}

abbrev job : Flash
job = record {
  images = record { offset = some "0x1000"; bytes = some (1 ∷ 2 ∷ []) } ∷ [];
  chip = "esp32";
  baud = 460_800;
  erase = false;
  tmpdir = some "/tmp/wbflash_1";
}

abbrev upload : Upload
upload = record {
  names = "app.bin" ∷ [];
  args = "write-flash" ∷ "0x10000" ∷ "app.bin" ∷ [];
  tmpdir = "/tmp/wb-flash-1";
  timeout = "300.0";
}

abbrev reading : Reading
reading = record {
  offset = "0x9000";
  count = 4096;
  chip = "auto";
  baud = "460800";
  outfile = "/tmp/wb-read-1/readback.bin";
  is_written = true;
  timeout = "120.0";
}

abbrev openocd : OpenOcd.Host
openocd = record { run = λ _. no_output; spawn = λ _. none; opens = λ _. false }

abbrev no_debugger : Debugger
no_debugger = record { sessions = []; probes = [] }

abbrev slot_2 : String
slot_2 = "SLOT2"

other_slot : running_slot.label ≢ slot_2
other_slot = ground (arith, eq_iff running_slot.label slot_2)

device-Returns_example :
    (let (s', d', r, steps) = flash_device machine openocd env upload running_slot no_debugger in
      Returns running_slot s' r)
    × (let (s', r, steps) = read_flash_device machine env reading running_slot in
        Returns running_slot s' r)
device-Returns_example =
    device-Returns machine openocd env upload reading running_slot no_debugger
      (record { here = λ s. refl; state = λ s. refl; proxy = λ s. refl })

flash_device-sessions_example :
    get slot_2 (flash_device machine openocd env upload running_slot no_debugger).1.sessions
    ≡ get slot_2 no_debugger.sessions
flash_device-sessions_example =
    flash_device-sessions machine openocd env upload running_slot no_debugger slot_2
      (no_sessions-IsMarked no_debugger refl) other_slot
